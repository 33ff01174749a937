-- ===== src/Oracle/Lossless.antt =====
-- The canonical form of a value tells everything of it but the order of its maps, canon of
-- tools/oracles/helm_values/main.go.
use cartograph_nvim.Base.{
  Text, Bool, Bool-cases, inl, inr, ◌||◌, arith, codes, text_eq, has_prefix, drop, true, false, ◌≡◌,
  refl, ap, ◌∙◌, Option, none, some, if◌then◌else◌,
}
use mathlib.Core.Path.{ap₂}
use cartograph_nvim.Engine.Order.{text_lt}
use cartograph_nvim.Oracle.{
  Any, null, boolean, number, text, array, table, Anys, nothing, also, Table, end, entry, Json,
  string, list, member, Jsons, empty, item, Floats, number_text, insert_key, sort_keys, pairs,
  canon, canon_all, canon_table,
}

-- The keys of every map stand in ascending order, none twice.
abbrev IsBelow : {F : Type 0} → Text → Table F → Type 0
IsBelow k end = Unit {0}
IsBelow k (entry j v m) = text_lt k j ≡ true

module _ {F : Type 0} where
  unfoldable mutual
    pub IsOrdered : Any F → Type 0
    IsOrdered (array a) = AllOrdered a
    IsOrdered (table m) = IsOrderedTable m
    IsOrdered _ = Unit {0}

    pub AllOrdered : Anys F → Type 0
    AllOrdered nothing = Unit {0}
    AllOrdered (also v vs) = IsOrdered v × AllOrdered vs

    pub IsOrderedTable : Table F → Type 0
    IsOrderedTable end = Unit {0}
    IsOrderedTable (entry k v m) = IsBelow k m × (IsOrdered v × IsOrderedTable m)

abbrev pub both : {A B C : Type 0} → (A → B → C) → Option A → Option B → Option C
both g none o = none
both g (some a) none = none
both g (some a) (some b) = some (g a b)

abbrev pub mapped : {A B : Type 0} → (A → B) → Option A → Option B
mapped g none = none
mapped g (some a) = some (g a)

-- A reader of canonical forms, with `read` for the numbers.
module _ {F : Type 0} (read : Text → Option F) where
  unfoldable pub read_scalar : Text → Option (Any F)
  unfolding codes has_prefix text_eq
  read_scalar s =
      if has_prefix s (codes "str:")
      then some (text (drop 4 s))
      else if has_prefix s (codes "number:")
      then mapped number (read (drop 7 s))
      else if has_prefix s (codes "bool:")
      then some (boolean (text_eq (drop 5 s) (codes "true")))
      else some null

  unfoldable mutual
    unfolding read_scalar codes text_eq

    pub read_json : Json → Option (Any F)
    read_json (string s) = read_scalar s
    read_json (list js) = none
    read_json (member k (list js)) =
        let values = mapped array (read_list js) in
        let entries = mapped table (read_pairs js) in
        if text_eq k (codes "__a") then values else entries
    read_json (member k j) = none

    pub read_list : Jsons → Option (Anys F)
    read_list empty = some nothing
    read_list (item j js) = both also (read_json j) (read_list js)

    pub read_pairs : Jsons → Option (Table F)
    read_pairs empty = some end
    read_pairs (item (list (item (string k) (item j empty))) js) =
        both (entry (drop 4 k)) (read_json j) (read_pairs js)
    read_pairs (item j js) = none

-- What a canonical form tells of a number: an ordinary one whole, of the others the kind.
pub data Number (F : Type 0) : Type 0 where
  not_a_number : Number F
  infinite : Number F
  minus_infinite : Number F
  minus_zero : Number F
  ordinary : F → Number F

module _ {F : Type 0} (f : Floats F) where
  unfoldable pub kind_of : F → Number F
  kind_of n =
      if f.is_nan n
      then not_a_number
      else if f.is_inf n
      then infinite
      else if f.is_neg_inf n
      then minus_infinite
      else if f.is_neg_zero n
      then minus_zero
      else ordinary n

  -- The value with its numbers told so.
  unfoldable mutual
    pub told : Any F → Any (Number F)
    told null = null
    told (boolean b) = boolean b
    told (number n) = number (kind_of n)
    told (text s) = text s
    told (array a) = array (told_all a)
    told (table m) = table (told_table m)

    pub told_all : Anys F → Anys (Number F)
    told_all nothing = nothing
    told_all (also v vs) = also (told v) (told_all vs)

    pub told_table : Table F → Table (Number F)
    told_table end = end
    told_table (entry k v m) = entry k (told v) (told_table m)

module _ {F : Type 0} (read : Text → Option F) where
  unfoldable pub read_number : Text → Option (Number F)
  unfolding codes text_eq
  read_number s =
      if text_eq s (codes "nan")
      then some not_a_number
      else if text_eq s (codes "inf")
      then some infinite
      else if text_eq s (codes "-inf")
      then some minus_infinite
      else if text_eq s (codes "-0")
      then some minus_zero
      else mapped ordinary (read s)

-- The texts that stand for the numbers that are not ordinary.
abbrev pub is_special : Text → Bool
is_special s =
    text_eq s (codes "nan")
    || (text_eq s (codes "inf") || (text_eq s (codes "-inf") || text_eq s (codes "-0")))

module _ {F : Type 0} (f : Floats F) (read : Text → Option F) where
  -- The texts that Go prints for ordinary numbers are read back, and are none of the special ones.
  abbrev pub PrintsRead : Type 0
  PrintsRead =
      (n : F)
      → kind_of f n ≡ ordinary n
      → (is_special (f.print n) ≡ false) × (read (f.print n) ≡ some n)

  ordinary_lem :
      (s : Text) (n : F)
      → is_special s ≡ false
      → read s ≡ some n
      → read_number read s ≡ some (ordinary n)
  unfolding read_number
  ordinary_lem s n e r = ground arith

  number_lem : PrintsRead → (n : F) → read_number read (number_text f n) ≡ some (kind_of f n)
  unfolding kind_of number_text
  number_lem p n = elim (Bool-cases (f.is_nan n)) [
    | inl a ↦ rw a (unfold read_number codes text_eq in refl)
    | inr a ↦ elim (Bool-cases (f.is_inf n)) [
      | inl b ↦ rw (a, b) (unfold read_number codes text_eq in refl)
      | inr b ↦ elim (Bool-cases (f.is_neg_inf n)) [
        | inl c ↦ rw (a, b, c) (unfold read_number codes text_eq in refl)
        | inr c ↦ elim (Bool-cases (f.is_neg_zero n)) [
          | inl d ↦ rw (a, b, c, d) (unfold read_number codes text_eq in refl)
          | inr d ↦
              let (special, back) = p n (rw (a, b, c, d) refl) in
              rw (a, b, c, d) (ordinary_lem (f.print n) n special back)
        ]
      ]
    ]
  ]

  sorted_lem : (m : Table F) → IsOrderedTable m → sort_keys (canon_table f m) ≡ canon_table f m
  unfolding sort_keys insert_key canon_table IsOrderedTable
  sorted_lem end o = refl
  sorted_lem (entry k v end) o = refl
  sorted_lem (entry k v (entry j u m)) (b, (o, os)) = rw (sorted_lem (entry j u m) os, b) refl

  module _ (prints : PrintsRead) where
    mutual
      unfolding canon canon_all canon_table read_json read_list read_pairs read_scalar IsOrdered
          AllOrdered IsOrderedTable pairs codes has_prefix text_eq told told_all told_table

      lossless :
          (v : Any F) → IsOrdered v → read_json (read_number read) (canon f v) ≡ some (told f v)
      lossless null o = refl
      lossless (boolean true) o = refl
      lossless (boolean false) o = refl
      lossless (number n) o = ap (mapped number) (number_lem prints n)
      lossless (text s) o = refl
      lossless (array a) o = ap (mapped array) (lossless_all a o)
      lossless (table m) o =
          ap (λ ps. mapped table (read_pairs (read_number read) (pairs ps))) (sorted_lem m o)
          ∙ ap (mapped table) (lossless_table m o)

      lossless_all :
          (a : Anys F)
          → AllOrdered a
          → read_list (read_number read) (canon_all f a) ≡ some (told_all f a)
      lossless_all nothing o = refl
      lossless_all (also v vs) (o, os) = ap₂ (both also) (lossless v o) (lossless_all vs os)

      lossless_table :
          (m : Table F)
          → IsOrderedTable m
          → read_pairs (read_number read) (pairs (canon_table f m)) ≡ some (told_table f m)
      lossless_table end o = refl
      lossless_table (entry k v m) (b, (o, os)) =
          ap₂ (both (entry k)) (lossless v o) (lossless_table m os)

-- Where the texts that Go prints for ordinary numbers can be read back and are none of `nan`, `inf`,
-- `-inf` and `-0`, the canonical form of a value whose maps have their keys in ascending order, none
-- twice, reads back to the value, with of a number that is not ordinary its kind: NaN, either
-- infinity, or the zero with a sign.
pub read-canon :
    {F : Type 0} (f : Floats F) (read : Text → Option F) (v : Any F)
    → PrintsRead f read
    → IsOrdered v
    → read_json (read_number read) (canon f v) ≡ some (told f v)
read-canon f read v prints = lossless f read prints v
