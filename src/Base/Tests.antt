-- ===== src/Base/Tests.antt =====
-- Boolean tests on numbers and texts, and the conditional.
use Prim.Native.Nat.{ℕ, compare, Ordering}
use mathlib.Core.Path.{◌≡◌, refl, sym, ap, ap₂, ◌∙◌, subst}
use mathlib.Core.Logic.{◌⊎◌, inl, inr}
use mathlib.Core.Bool.{Bool, true, false, ◌&&◌}
use mathlib.Core.Option.{Option, none, some}
use mathlib.Core.List.{List, [], ◌∷◌}
use native.Mathlib.Omega.{arith}

abbrev pub ltb : ℕ → ℕ → Bool
ltb a b = elim (compare a b) [ Ordering.lt ↦ true | _ ↦ false ]

abbrev pub leb : ℕ → ℕ → Bool
leb a b = elim (compare a b) [ Ordering.gt ↦ false | _ ↦ true ]

infix 50 ◌==◌
abbrev pub ◌==◌ : ℕ → ℕ → Bool
a == b = elim (compare a b) [ Ordering.eq ↦ true | _ ↦ false ]

infix 1 if◌then◌else◌
abbrev pub if◌then◌else◌ {ℓ} : {A : Type ℓ} → Bool → A → A → A
if true then x else y = x
if false then x else y = y

pub ==→eq : (a b : ℕ) → (a == b) ≡ true → a ≡ b
==→eq a b h = ground arith

pub Bool-cases : (b : Bool) → (b ≡ true) ⊎ (b ≡ false)
Bool-cases true = inl refl
Bool-cases false = inr refl

abbrev pub is_some {ℓ} : {A : Type ℓ} → Option A → Bool
is_some none = false
is_some (some a) = true

pub Option-cases {ℓ} : {A : Type ℓ} (o : Option A) → (o ≡ none) ⊎ ((a : A) × (o ≡ some a))
Option-cases none = inl refl
Option-cases (some a) = inr (a, refl)

-- Go's `==` on strings.
unfoldable pub text_eq : List ℕ → List ℕ → Bool
text_eq [] [] = true
text_eq [] (b ∷ t) = false
text_eq (a ∷ s) [] = false
text_eq (a ∷ s) (b ∷ t) = a == b && text_eq s t

pub text_eq_sound : (s t : List ℕ) → text_eq s t ≡ true → s ≡ t
unfolding text_eq
text_eq_sound [] [] h = refl
text_eq_sound [] (b ∷ t) h = ground arith
text_eq_sound (a ∷ s) [] h = ground arith
text_eq_sound (a ∷ s) (b ∷ t) h =
    ap₂ ◌∷◌ (==→eq a b (ground arith)) (text_eq_sound s t (ground arith))

pub text_eq_refl : (s : List ℕ) → text_eq s s ≡ true
unfolding text_eq
text_eq_refl [] = refl
text_eq_refl (a ∷ s) = ground (arith, text_eq_refl s)

-- Two names that a third equals are tested alike.
pub text_eq_same : (a b c : List ℕ) → text_eq a b ≡ true → text_eq a c ≡ text_eq b c
text_eq_same a b c e = ap (λ x. text_eq x c) (text_eq_sound a b e)

pub text_eq_differ :
    (a b c : List ℕ) → text_eq a b ≡ false → text_eq a c ≡ true → text_eq b c ≡ false
text_eq_differ a b c e k = elim (Bool-cases (text_eq b c)) [
  | inl t ↦
      let same : a ≡ b = text_eq_sound a c k ∙ sym (text_eq_sound b c t) in
      let f : text_eq b b ≡ false = subst (λ x. text_eq x b ≡ false) same e in
      cc (f, text_eq_refl b)
  | inr f ↦ f
]

pub text_eq_flip : (a b : List ℕ) → text_eq a b ≡ false → text_eq b a ≡ false
text_eq_flip a b n = elim (Bool-cases (text_eq b a)) [
  | inl e ↦
      let f : text_eq b b ≡ false =
        subst (λ x. text_eq x b ≡ false) (sym (text_eq_sound b a e)) n in
      cc (f, text_eq_refl b)
  | inr e ↦ e
]
