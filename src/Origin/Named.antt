-- ===== src/Origin/Named.antt =====
-- The sources that the marks of effective values name, tools/helmprov/cmd/helmprov/origin.go.
use cartograph_nvim.Base.{
  ℕ, suc, Text, codes, true, ◌≡◌, refl, sym, List, [], ◌∷◌, ◌++◌, inl, inr, ◌⊎◌, arith,
}
use mathlib.Core.Path.{subst}
use cartograph_nvim.Origin.Tables.{
  Any, null, text, other, table, Table, end, entry, below, mark, taint, taint_value,
}
use cartograph_nvim.Origin.Layers.{
  Layer, Chart, chart, Charts, no_charts, dependency, chart_id, mark_chart, mark_charts, name_of,
}
use cartograph_nvim.Origin.Canon.{Tried, got, Tried-cases, Helm}
use cartograph_nvim.Origin.Merge.{merge_sources, add_source}
use cartograph_nvim.Origin.Source.{SetsPath, ValueSets, ChartSets, ChartsSet, Numbers}

module _ {X : Type 0} where
  -- The text is a leaf of the table, at any depth.
  unfoldable mutual
    pub Holds : Text → Table X → Type 0
    Holds s end = ⊥
    Holds s (entry k v m) = IsLeaf s v ⊎ Holds s m

    pub IsLeaf : Text → Any X → Type 0
    IsLeaf s null = ⊥
    IsLeaf s (text t) = t ≡ s
    IsLeaf s (other x) = ⊥
    IsLeaf s (table m) = Holds s m

  -- The text is a leaf of the values of the chart or of a dependency.
  unfoldable mutual
    unfolding Holds

    pub ChartHolds : Text → Chart X → Type 0
    ChartHolds s (chart name vals subs) = Holds s vals ⊎ ChartsHold s subs

    pub ChartsHold : Text → Charts X → Type 0
    ChartsHold s no_charts = ⊥
    ChartsHold s (dependency c cs) = ChartHolds s c ⊎ ChartsHold s cs

module _ {X : Type 0} (S : Text → Table X → Type 0) where
  -- The text is a mark of one of the layers and of a leaf of a source of its id.
  abbrev pub IsNamed : Text → List Layer → Type 0
  IsNamed s [] = ⊥
  IsNamed s (l ∷ ls) =
      ((path : Text) × (m : Table X) × S l.id m × SetsPath path m [] × (s ≡ mark l.id path))
      ⊎ IsNamed s ls

  pub IsNamed-left : (s : Text) (ls ms : List Layer) → IsNamed s ls → IsNamed s (ls ++ ms)
  IsNamed-left s [] ms n = absurd n
  IsNamed-left s (l ∷ ls) ms (inl m) = inl m
  IsNamed-left s (l ∷ ls) ms (inr n) = inr (IsNamed-left s ls ms n)

  pub IsNamed-right : (s : Text) (ls ms : List Layer) → IsNamed s ms → IsNamed s (ls ++ ms)
  IsNamed-right s [] ms n = n
  IsNamed-right s (l ∷ ls) ms n = inr (IsNamed-right s ls ms n)

module _ {X : Type 0} where
  mutual
    unfolding taint Holds SetsPath ValueSets

    taint-mark :
        (m : Table X) (id prefix s : Text)
        → Holds s (taint m id prefix)
        → (path : Text) × SetsPath path m prefix × (s ≡ mark id path)
    taint-mark end id prefix s n = absurd n
    taint-mark (entry k v m) id prefix s (inl n) =
        let (path, h, e) = taint_value-mark v id (below prefix k) s n in (path, inl h, e)
    taint-mark (entry k v m) id prefix s (inr n) =
        let (path, h, e) = taint-mark m id prefix s n in (path, inr h, e)

    taint_value-mark :
        (v : Any X) (id p s : Text)
        → IsLeaf s (taint_value v id p)
        → (path : Text) × ValueSets path v p × (s ≡ mark id path)
    taint_value-mark null id p s n = absurd n
    taint_value-mark (text t) id p s n = (p, refl, sym n)
    taint_value-mark (other x) id p s n = (p, refl, sym n)
    taint_value-mark (table m) id p s n = taint-mark m id p s n

  module _ (S : Text → Table X → Type 0) (path_join : List Text → Text) where
    mutual
      unfolding mark_chart ChartHolds ChartSets

      pub chart-IsNamed :
          (c : Chart X) (dir scope s : Text)
          → ((id : Text) (m : Table X) → ChartSets c scope id m → S id m)
          → ChartHolds s (mark_chart path_join c dir scope).0
          → IsNamed S s (mark_chart path_join c dir scope).1
      chart-IsNamed (chart name vals subs) dir scope s f (inl n) =
          let (path, h, e) = taint-mark vals (chart_id scope) [] s n in
          inl (path, vals, f (chart_id scope) vals (inl (refl, refl)), h, e)
      chart-IsNamed (chart name vals subs) dir scope s f (inr n) =
          inr (charts-IsNamed subs dir scope s (λ id m h. f id m (inr h)) n)

      pub charts-IsNamed :
          (cs : Charts X) (dir scope s : Text)
          → ((id : Text) (m : Table X) → ChartsSet cs scope id m → S id m)
          → ChartsHold s (mark_charts path_join cs dir scope).0
          → IsNamed S s (mark_charts path_join cs dir scope).1
      charts-IsNamed no_charts dir scope s f n = absurd n
      charts-IsNamed (dependency c cs) dir scope s f (inl n) =
          let d = path_join (dir ∷ codes "charts" ∷ name_of c ∷ []) in
          let k = below scope (name_of c) in
          IsNamed-left S s (mark_chart path_join c d k).1 (mark_charts path_join cs dir scope).1
            (chart-IsNamed c d k s (λ id m h. f id m (inl h)) n)
      charts-IsNamed (dependency c cs) dir scope s f (inr n) =
          let d = path_join (dir ∷ codes "charts" ∷ name_of c ∷ []) in
          let k = below scope (name_of c) in
          IsNamed-right S s (mark_chart path_join c d k).1 (mark_charts path_join cs dir scope).1
            (charts-IsNamed cs dir scope s (λ id m h. f id m (inr h)) n)

-- A merge makes up no texts: a text leaf of its result is one of its arguments'.
abbrev pub MergesLeaves : {X : Type 0} → Helm X → Type 0
MergesLeaves {X = X} p =
    (a b : Table X) (s : Text) → Holds s (p.merge_maps a b) → Holds s a ⊎ Holds s b

module _ {X : Type 0} (p : Helm X) (S : Text → Table X → Type 0) (merges : MergesLeaves p) where
  pub merge-IsNamed :
      (read : Text → Tried (Table X)) (layer : ℕ → Text → Layer) (i : ℕ) (fs : List Text)
      (base m : Table X) (s : Text)
      → ((j : ℕ) (f : Text) (t : Table X) → Numbers j f i fs → read f ≡ got t → S (layer j f).id t)
      → (merge_sources p read layer true i fs base).0 ≡ got m
      → Holds s m
      → Holds s base ⊎ IsNamed S s (merge_sources p read layer true i fs base).1
  unfolding merge_sources add_source
  merge-IsNamed read layer i [] base m s g =
      λ e n. let same : base ≡ m = ground arith in inl (subst (λ x. Holds s x) (sym same) n)
  merge-IsNamed read layer i (f ∷ fs) base m s g = elim (Tried-cases (read f)) [
    | inr (why, c) ↦ rw (merge_sources, c) λ e n. ground arith
    | inl (t, c) ↦
        let marked = taint t (layer i f).id [] in
        rw (merge_sources, c)
          λ e n.
            elim (merge-IsNamed read layer (suc i) fs (p.merge_maps base marked) m s
              (λ j q r k. g j q r (inr k)) e n) [
                | inr later ↦ inr (inr later)
                | inl here ↦ elim (merges base marked s here) [
                  | inl b ↦ inl b
                  | inr b ↦
                      let (path, h, k) = taint-mark t (layer i f).id [] s b in
                      inr (inl (path, t, g i f t (inl (refl, refl)) c, h, k))
                ]
              ]
  ]
