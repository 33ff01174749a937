-- ===== src/Base/RemoveLaws.antt =====
-- Laws of the search for a text and of its removal.
use cartograph_nvim.Base.Texts.{
  Text, length, drop, has_prefix, index, remove_from, replace_all_empty,
}
use cartograph_nvim.Base.Tests.{Bool-cases, Option-cases}
use Prim.Native.Nat.{ℕ, zero, suc, ◌+◌, ◌-◌, ◌≤◌}
use mathlib.Core.Bool.{true, false}
use mathlib.Core.Logic.{inl, inr}
use mathlib.Core.Path.{◌≡◌, refl, subst}
use mathlib.Core.Option.{none, some}
use mathlib.Core.List.{[], ◌∷◌}
use native.Mathlib.Omega.{arith}

has_prefix-length : (s p : Text) → has_prefix s p ≡ true → length p ≤ length s
unfolding has_prefix
has_prefix-length s [] e = omega arith
has_prefix-length [] (p ∷ ps) e = ground arith
has_prefix-length (c ∷ s) (p ∷ ps) e = ground (arith, has_prefix-length s ps)

remove_from-drop : (k : ℕ) (s old : Text) → remove_from k s old ≡ remove_from zero (drop k s) old
unfolding remove_from
remove_from-drop zero s old = refl
remove_from-drop (suc k) [] old = refl
remove_from-drop (suc k) (c ∷ s) old = remove_from-drop k s old

-- With no occurrence nothing is removed.
pub length-replace-none :
    (s old : Text) → index s old ≡ none → length (replace_all_empty s old) ≡ length s
unfolding index replace_all_empty remove_from
length-replace-none [] old e = refl
length-replace-none (c ∷ s) old e = elim (Bool-cases (has_prefix (c ∷ s) old)) [
  | inl t ↦ ground arith
  | inr f ↦ ground (arith, length-replace-none s old)
]

-- Up to a place the text stays, and the removal goes on at `k`, after an occurrence there.
abbrev pub IsCut : Text → Text → ℕ → Type 0
IsCut s old j =
    (k : ℕ)
    → j + length old ≡ k
    → (k ≤ length s)
      × (length (replace_all_empty s old) ≡ j + length (replace_all_empty (drop k s) old))

IsCut-here : (n : ℕ) (s old : Text) → length old ≡ suc n → has_prefix s old ≡ true → IsCut s old 0
unfolding replace_all_empty remove_from
IsCut-here n [] old e t k p = absurd (omega (arith, has_prefix-length [] old t))
IsCut-here n (c ∷ s) old e t zero p = absurd (omega arith)
IsCut-here n (c ∷ s) old e t (suc k) p =
    let z : length old - 1 ≡ k = omega arith in
    (
      omega (arith, has_prefix-length (c ∷ s) old t),
      rw (t, z, remove_from-drop k s old) (omega arith),
    )

IsCut-later :
    (c j : ℕ) (s old : Text)
    → has_prefix (c ∷ s) old ≡ false
    → IsCut s old j
    → IsCut (c ∷ s) old (suc j)
unfolding replace_all_empty remove_from
IsCut-later c j s old f h zero p = absurd (omega arith)
IsCut-later c j s old f h (suc k) p =
    let (l, e) = h k (omega arith) in (omega arith, rw f (omega (arith, e)))

-- The first occurrence is such a place.
pub index-IsCut :
    (n j : ℕ) (s old : Text) → length old ≡ suc n → index s old ≡ some j → IsCut s old j
unfolding index
index-IsCut n j [] old e i = elim (Bool-cases (has_prefix [] old)) [
  | inl t ↦ absurd (omega (arith, e, has_prefix-length [] old t))
  | inr f ↦ ground arith
]
index-IsCut n j (c ∷ s) old e i = elim (Bool-cases (has_prefix (c ∷ s) old)) [
  | inl t ↦
      let z : 0 ≡ j = ground arith in
      subst (λ k. IsCut (c ∷ s) old k) z (IsCut-here n (c ∷ s) old e t)
  | inr f ↦ elim (Option-cases (index s old)) [
    | inl m ↦ ground arith
    | inr (k, m) ↦
        let z : suc k ≡ j = ground arith in
        subst (λ k. IsCut (c ∷ s) old k) z (IsCut-later c k s old f (index-IsCut n k s old e m))
  ]
]
