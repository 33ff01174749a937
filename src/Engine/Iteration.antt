-- ===== src/Engine/Iteration.antt =====
-- The order of templates does not depend on the order in which Go iterates their map, sortTemplates of
-- tools/helmprov/engine/engine.go.
use cartograph_nvim.Base.{
  Text, true, false, ◌≡◌, List, [], ◌∷◌, Bool-cases, inl, inr, arith, refl, sym, ap, ◌∙◌, ◌⊎◌,
}
use mathlib.Core.Path.{ap₂}
use mathlib.Core.List.{Permᴰ}
use cartograph_nvim.Engine.Order.{
  text_lt, by_path_len, insert_name, sort_templates, by_path_len_trans, by_path_len_irrefl,
}

pub text_lt_total : (a b : Text) → text_lt a b ≡ false → text_lt b a ≡ false → a ≡ b
unfolding text_lt
text_lt_total [] [] p q = refl
text_lt_total [] (y ∷ b) p q = ground arith
text_lt_total (x ∷ a) [] p q = ground arith
text_lt_total (x ∷ a) (y ∷ b) p q =
    let e : x ≡ y = ground arith in ap₂ ◌∷◌ e (text_lt_total a b (ground arith) (ground arith))

by_path_len_total : (a b : Text) → by_path_len a b ≡ false → by_path_len b a ≡ false → a ≡ b
unfolding by_path_len
by_path_len_total a b p q = text_lt_total a b (ground arith) (ground arith)

-- Of two names one comes before the other, or they are equal.
by_path_len_cases :
    (a b : Text)
    → ((by_path_len a b ≡ true) × (by_path_len b a ≡ false))
      ⊎ (((by_path_len b a ≡ true) × (by_path_len a b ≡ false)) ⊎ (a ≡ b))
by_path_len_cases a b = elim (Bool-cases (by_path_len a b)) [
  | inl p ↦ inl (p, ground (arith, by_path_len_trans a b a, by_path_len_irrefl a))
  | inr p ↦ elim (Bool-cases (by_path_len b a)) [
    | inl q ↦ inr (inl (q, p))
    | inr q ↦ inr (inr (by_path_len_total a b p q))
  ]
]

insert_apart :
    (a b : Text) (xs : List Text)
    → by_path_len a b ≡ true
    → by_path_len b a ≡ false
    → insert_name a (insert_name b xs) ≡ insert_name b (insert_name a xs)
unfolding insert_name
insert_apart a b [] p q = rw (p, q) refl
insert_apart a b (y ∷ ys) p q = elim (Bool-cases (by_path_len y b)) [
  | inl s ↦ elim (Bool-cases (by_path_len y a)) [
    | inl r ↦ rw (s, r, q, p) refl
    | inr r ↦ rw (s, r, q, s) refl
  ]
  | inr s ↦ elim (Bool-cases (by_path_len y a)) [
    | inl r ↦ ground (arith, by_path_len_trans y a b)
    | inr r ↦ rw (s, r, s) (ap (◌∷◌ y) (insert_apart a b ys p q))
  ]
]

insert_comm :
    (a b : Text) (xs : List Text)
    → insert_name a (insert_name b xs) ≡ insert_name b (insert_name a xs)
insert_comm a b xs = elim (by_path_len_cases a b) [
  | inl (p, q) ↦ insert_apart a b xs p q
  | inr (inl (p, q)) ↦ sym (insert_apart b a xs p q)
  | inr (inr e) ↦ ap₂ (λ u v. insert_name u (insert_name v xs)) e (sym e)
]

-- sortTemplates gives one list for all the orders in which Go may come to the entries of a map.
pub sort-permᴰ : {xs ys : List Text} → Permᴰ xs ys → sort_templates xs ≡ sort_templates ys
unfolding sort_templates
sort-permᴰ Permᴰ.nil = refl
sort-permᴰ (Permᴰ.cons e p) = ap₂ insert_name e (sort-permᴰ p)
sort-permᴰ (Permᴰ.swap {a} {b} {a'} {b'} {l} e d) =
    insert_comm a b (sort_templates l)
    ∙ ap₂ (λ u v. insert_name u (insert_name v (sort_templates l))) d e
sort-permᴰ (Permᴰ.trans p q) = sort-permᴰ p ∙ sort-permᴰ q
