-- ===== src/Origin/Source.antt =====
-- The sources of an answer: the values of the chart and its dependencies, of the files and of the --set
-- arguments, for computeOrigins of tools/helmprov/cmd/helmprov/origin.go.
use cartograph_nvim.Base.{ℕ, suc, Text, codes, ◌≡◌, List, [], ◌∷◌, ◌⊎◌, inl, inr, arith}
use cartograph_nvim.Origin.Tables.{Any, null, text, other, table, Table, end, entry, below}
use cartograph_nvim.Origin.Layers.{
  Chart, chart, Charts, no_charts, dependency, chart_id, name_of, numbered,
}
use cartograph_nvim.Origin.Canon.{got, Tried-cases, Helm}
use cartograph_nvim.Origin.Merge.{values_of_file, values_of_set}
use cartograph_nvim.Origin.Compute.{plain_values_of_file}

module _ {X : Type 0} where
  -- The path of a leaf of the table that is neither nil nor a table.
  unfoldable mutual
    pub SetsPath : Text → Table X → Text → Type 0
    SetsPath path end prefix = ⊥
    SetsPath path (entry k v m) prefix = ValueSets path v (below prefix k) ⊎ SetsPath path m prefix

    pub ValueSets : Text → Any X → Text → Type 0
    ValueSets path null p = ⊥
    ValueSets path (text s) p = path ≡ p
    ValueSets path (other x) p = path ≡ p
    ValueSets path (table m) p = SetsPath path m p

  -- The id is that of the chart at the scope or of a dependency, and the table its values.
  unfoldable mutual
    unfolding name_of

    pub ChartSets : Chart X → Text → Text → Table X → Type 0
    ChartSets (chart name vals subs) scope id m =
        ((id ≡ chart_id scope) × (m ≡ vals)) ⊎ ChartsSet subs scope id m

    pub ChartsSet : Charts X → Text → Text → Table X → Type 0
    ChartsSet no_charts scope id m = ⊥
    ChartsSet (dependency c cs) scope id m =
        ChartSets c (below scope (name_of c)) id m ⊎ ChartsSet cs scope id m

-- The text with the number `j`, where the first has the number `i`.
abbrev pub Numbers : ℕ → Text → ℕ → List Text → Type 0
Numbers j f i [] = ⊥
Numbers j f i (g ∷ gs) = ((j ≡ i) × (f ≡ g)) ⊎ Numbers j f (suc i) gs

-- The ids of the sources, and their values.
pub data Source {X : Type 0} (p : Helm X) (dir : Text) (files sets : List Text)
    : Text → Table X → Type 0 where
  of_chart :
      (ch : Chart X) (id : Text) (m : Table X)
      → p.load_chart dir ≡ got ch
      → ChartSets ch [] id m
      → Source p dir files sets id m
  of_file :
      (j : ℕ) (f raw : Text) (m : Table X)
      → Numbers j f 1 files
      → p.read_file f ≡ got raw
      → p.load_values raw ≡ got m
      → Source p dir files sets (numbered (codes "f") j) m
  of_set :
      (j : ℕ) (s : Text) (m : Table X)
      → Numbers j s 1 sets
      → p.parse_set s ≡ got m
      → Source p dir files sets (numbered (codes "s") j) m

module _ {X : Type 0} (p : Helm X) (dir : Text) (files sets : List Text) where
  pub plain_file-Source :
      (j : ℕ) (f : Text) (m : Table X)
      → Numbers j f 1 files
      → plain_values_of_file p f ≡ got m
      → Source p dir files sets (numbered (codes "f") j) m
  unfolding plain_values_of_file
  plain_file-Source j f m n = elim (Tried-cases (p.read_file f)) [
    | inl (raw, c) ↦ rw (plain_values_of_file, c) λ e. of_file j f raw m n c e
    | inr (why, c) ↦ rw (plain_values_of_file, c) λ e. ground arith
  ]

  pub file-Source :
      (j : ℕ) (f : Text) (m : Table X)
      → Numbers j f 1 files
      → values_of_file p f ≡ got m
      → Source p dir files sets (numbered (codes "f") j) m
  unfolding values_of_file
  file-Source j f m n = elim (Tried-cases (p.read_file f)) [
    | inl (raw, c) ↦ elim (Tried-cases (p.load_values raw)) [
      | inl (l, k) ↦ rw (values_of_file, c, k) λ e. of_file j f raw m n c ground arith
      | inr (why, k) ↦ rw (values_of_file, c, k) λ e. ground arith
    ]
    | inr (why, c) ↦ rw (values_of_file, c) λ e. ground arith
  ]

  pub set-Source :
      (j : ℕ) (s : Text) (m : Table X)
      → Numbers j s 1 sets
      → values_of_set p s ≡ got m
      → Source p dir files sets (numbered (codes "s") j) m
  unfolding values_of_set
  set-Source j s m n = elim (Tried-cases (p.parse_set s)) [
    | inl (l, k) ↦ rw (values_of_set, k) λ e. of_set j s m n ground arith
    | inr (why, k) ↦ rw (values_of_set, k) λ e. ground arith
  ]
