-- ===== src/Oracle/Unordered.antt =====
-- The canonical form of a value does not depend on the order in which Go iterates its maps, canon of
-- tools/oracles/helm_values/main.go.
use cartograph_nvim.Base.{
  Text, codes, text_eq, text_eq_refl, true, false, ◌≡◌, refl, sym, ap, ◌∙◌, Bool-cases, inl, inr,
  List, [], ◌∷◌, arith,
}
use mathlib.Core.Path.{ap₂}
use cartograph_nvim.Engine.Order.{text_lt, text_lt_trans, text_lt_irrefl}
use cartograph_nvim.Engine.Iteration.{text_lt_total}
use cartograph_nvim.Oracle.{
  Any, array, table, Anys, nothing, also, Table, end, entry, Json, list, member, item, Floats,
  insert_key, sort_keys, pairs, canon, canon_all, canon_table,
}

-- Values that differ in the order of the entries of their maps only. Entries of different keys may
-- change places.
module _ {F : Type 0} where
  mutual
    pub data Same : Any F → Any F → Type 0 where
      same_value : (v : Any F) → Same v v
      same_array : {a b : Anys F} → SameAll a b → Same (array a) (array b)
      same_table : {m n : Table F} → SameTable m n → Same (table m) (table n)

    pub data SameAll : Anys F → Anys F → Type 0 where
      same_nothing : SameAll nothing nothing
      same_also :
          {v u : Any F} {a b : Anys F} → Same v u → SameAll a b → SameAll (also v a) (also u b)

    pub data SameTable : Table F → Table F → Type 0 where
      same_end : SameTable end end
      same_entry :
          {v u : Any F} {m n : Table F} (k : Text)
          → Same v u
          → SameTable m n
          → SameTable (entry k v m) (entry k u n)
      same_swap :
          (k j : Text) (v u : Any F) (m : Table F)
          → text_eq k j ≡ false
          → SameTable (entry k v (entry j u m)) (entry j u (entry k v m))
      same_trans : {m n o : Table F} → SameTable m n → SameTable n o → SameTable m o

insert_apart :
    (x y : Text × Json) (l : List (Text × Json))
    → text_lt x.0 y.0 ≡ true
    → text_lt y.0 x.0 ≡ false
    → insert_key x (insert_key y l) ≡ insert_key y (insert_key x l)
unfolding insert_key
insert_apart x y [] p q = rw (p, q) refl
insert_apart x y (z ∷ l) p q = elim (Bool-cases (text_lt y.0 z.0)) [
  | inl s ↦
      let r : text_lt x.0 z.0 ≡ true = text_lt_trans x.0 y.0 z.0 p s in rw (s, r, p, q, s) refl
  | inr s ↦ elim (Bool-cases (text_lt x.0 z.0)) [
    | inl r ↦ rw (s, r, q, s) refl
    | inr r ↦ rw (s, r, s) (ap (◌∷◌ z) (insert_apart x y l p q))
  ]
]

insert_comm :
    (x y : Text × Json) (l : List (Text × Json))
    → text_eq x.0 y.0 ≡ false
    → insert_key x (insert_key y l) ≡ insert_key y (insert_key x l)
insert_comm x y l n = elim (Bool-cases (text_lt x.0 y.0)) [
  | inl p ↦ insert_apart x y l p (ground (arith, text_lt_trans x.0 y.0 x.0, text_lt_irrefl x.0))
  | inr p ↦ elim (Bool-cases (text_lt y.0 x.0)) [
    | inl q ↦ sym (insert_apart y x l q p)
    | inr q ↦
        let same = text_lt_total x.0 y.0 p q in
        let yes : text_eq x.0 y.0 ≡ true = ap (text_eq x.0) (sym same) ∙ text_eq_refl x.0 in
        cc (n, yes)
  ]
]

module _ {F : Type 0} (f : Floats F) where
  mutual
    unfolding canon canon_all canon_table sort_keys

    Same-canon : {v u : Any F} → Same v u → canon f v ≡ canon f u
    Same-canon (same_value v) = refl
    Same-canon (same_array s) = ap (λ js. member (codes "__a") (list js)) (Same-canon_all s)
    Same-canon (same_table s) = ap (λ ps. member (codes "__o") (list (pairs ps))) (Same-sort s)

    Same-canon_all : {a b : Anys F} → SameAll a b → canon_all f a ≡ canon_all f b
    Same-canon_all same_nothing = refl
    Same-canon_all (same_also s t) = ap₂ item (Same-canon s) (Same-canon_all t)

    Same-sort :
        {m n : Table F} → SameTable m n → sort_keys (canon_table f m) ≡ sort_keys (canon_table f n)
    Same-sort same_end = refl
    Same-sort (same_entry k s t) = ap₂ (λ j l. insert_key (k, j) l) (Same-canon s) (Same-sort t)
    Same-sort (same_swap k j v u m d) =
        insert_comm (k, canon f v) (j, canon f u) (sort_keys (canon_table f m)) d
    Same-sort (same_trans s t) = Same-sort s ∙ Same-sort t

-- Values that differ in the order of the entries of their maps only, at any depth, have the same
-- canonical form.
pub canon-Same : {F : Type 0} (f : Floats F) (v u : Any F) → Same v u → canon f v ≡ canon f u
canon-Same f v u s = Same-canon f s
