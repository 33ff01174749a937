-- ===== src/Oracle.antt =====
-- The oracle for values files: canon and main of tools/oracles/helm_values/main.go, over parameters
-- for the files, the YAML loader and Go's numbers. A Go map is a list of its entries, in the order in
-- which a run iterates it.
pub mod Unordered
pub mod Lossless
pub mod Answered
use cartograph_nvim.Base.{
  Text, codes, text_eq, Bool, Option, none, some, List, [], ◌∷◌, ◌++◌, if◌then◌else◌, ◌==◌,
}
use cartograph_nvim.Tpl.Host.{set_key}
use cartograph_nvim.Engine.Order.{text_lt}
use cartograph_nvim.Origin.Canon.{Tried, got, err}

-- A value of a YAML file, with `F` for float64.
mutual
  pub data Any (F : Type 0) : Type 0 where
    null : Any F
    boolean : Bool → Any F
    number : F → Any F
    text : Text → Any F
    array : Anys F → Any F
    table : Table F → Any F

  pub data Anys (F : Type 0) : Type 0 where
    nothing : Anys F
    also : Any F → Anys F → Anys F

  pub data Table (F : Type 0) : Type 0 where
    end : Table F
    entry : Text → Any F → Table F → Table F

-- What is printed; an object has one member.
mutual
  pub data Json : Type 0 where
    string : Text → Json
    list : Jsons → Json
    member : Text → Json → Json

  pub data Jsons : Type 0 where
    empty : Jsons
    item : Json → Jsons → Jsons

-- math.IsNaN, math.IsInf, a zero with its sign bit, and the verb %.17g
pub record Floats (F : Type 0) : Type 0 where
  pub is_nan : F → Bool
  pub is_inf : F → Bool
  pub is_neg_inf : F → Bool
  pub is_neg_zero : F → Bool
  pub print : F → Text

-- sort.Strings, of keys with what stands under them
unfoldable pub insert_key : Text × Json → List (Text × Json) → List (Text × Json)
unfolding text_lt
insert_key x [] = x ∷ []
insert_key x (y ∷ ys) =
    let rest = insert_key x ys in if text_lt x.0 y.0 then x ∷ y ∷ ys else y ∷ rest

unfoldable pub sort_keys : List (Text × Json) → List (Text × Json)
unfolding insert_key
sort_keys [] = []
sort_keys (x ∷ xs) = insert_key x (sort_keys xs)

unfoldable pub pairs : List (Text × Json) → Jsons
unfolding codes
pairs [] = empty
pairs ((k, j) ∷ ps) = item (list (item (string (codes "str:" ++ k)) (item j empty))) (pairs ps)

module _ {F : Type 0} (f : Floats F) where
  unfoldable pub number_text : F → Text
  unfolding codes
  number_text n =
      if f.is_nan n
      then codes "nan"
      else if f.is_inf n
      then codes "inf"
      else if f.is_neg_inf n
      then codes "-inf"
      else if f.is_neg_zero n
      then codes "-0"
      else f.print n

  unfoldable mutual
    unfolding codes number_text sort_keys pairs

    pub canon : Any F → Json
    canon null = string (codes "null")
    canon (boolean b) = string (codes "bool:" ++ (if b then codes "true" else codes "false"))
    canon (number n) = string (codes "number:" ++ number_text n)
    canon (text s) = string (codes "str:" ++ s)
    canon (array a) = member (codes "__a") (list (canon_all a))
    canon (table m) = member (codes "__o") (list (pairs (sort_keys (canon_table m))))

    pub canon_all : Anys F → Jsons
    canon_all nothing = empty
    canon_all (also v vs) = item (canon v) (canon_all vs)

    pub canon_table : Table F → List (Text × Json)
    canon_table end = []
    canon_table (entry k v m) = (k, canon v) ∷ canon_table m

-- os.ReadFile and yaml.Unmarshal into a map, which is nil where there is no document
pub record Loader (F : Type 0) : Type 0 where
  pub read_file : Text → Tried Text
  pub unmarshal : Text → Tried (Option (Table F))

-- strings.Split(all, "\x00")
unfoldable pub split_nul : Text → List Text
split_nul [] = [] ∷ []
split_nul (c ∷ s) = elim (split_nul s) [
  | [] ↦ (c ∷ []) ∷ []
  | x ∷ xs ↦ if c == 0 then [] ∷ x ∷ xs else (c ∷ x) ∷ xs
]

-- strings.ReplaceAll(s, "\n", " ")
unfoldable pub spaced : Text → Text
spaced [] = []
spaced (c ∷ s) = (if c == 0x0A then 0x20 else c) ∷ spaced s

module _ {F : Type 0} (f : Floats F) (l : Loader F) where
  unfoldable pub documents : Option (Table F) → Json
  unfolding codes canon
  documents none = member (codes "value") (member (codes "__a") (list empty))
  documents (some m) =
      member (codes "value") (member (codes "__a") (list (item (canon f (table m)) empty)))

  unfoldable pub answer_to : Text → Json
  unfolding codes spaced documents
  answer_to p = elim (l.read_file p) [
    | err e ↦ member (codes "error") (string e)
    | got b ↦ elim (l.unmarshal b) [
      | err e ↦ member (codes "error") (string (spaced e))
      | got docs ↦ documents docs
    ]
  ]

  unfoldable pub answers : List Text → List (Text × Json) → List (Text × Json)
  unfolding answer_to set_key text_eq
  answers [] out = out
  answers (p ∷ ps) out =
      let skipped = answers ps out in
      let answered = answers ps (set_key p (answer_to p) out) in
      if text_eq p [] then skipped else answered

  -- main, with what it reads from stdin
  unfoldable pub run : Text → List (Text × Json)
  unfolding answers split_nul
  run all = answers (split_nul all) []
