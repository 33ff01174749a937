-- ===== src/Base/TextLaws.antt =====
-- Laws of the texts and lists of the shared helpers.
use cartograph_nvim.Base.Texts.{Text, length, take, drop, has_prefix, trim_prefix, last_index}
use Prim.Native.Nat.{ℕ, zero, suc, ◌+◌, ◌-◌}
use mathlib.Core.Bool.{true}
use mathlib.Core.Option.{some}
use mathlib.Core.Path.{◌≡◌, refl, sym, ap, ◌∙◌}
use mathlib.Core.List.{List, [], ◌∷◌, ◌++◌}
use native.Mathlib.Omega.{arith}

module _ {ℓ} {A : Type ℓ} where
  pub length-append : (xs ys : List A) → length (xs ++ ys) ≡ length xs + length ys
  length-append [] ys = omega arith
  length-append (x ∷ xs) ys = omega (arith, length-append xs ys)

  pub drop-length-append : (xs ys : List A) → drop (length xs) (xs ++ ys) ≡ ys
  drop-length-append [] ys = refl
  drop-length-append (x ∷ xs) ys = drop-length-append xs ys

  pub take-length-append : (xs ys : List A) → take (length xs) (xs ++ ys) ≡ xs
  take-length-append [] ys = refl
  take-length-append (x ∷ xs) ys = ap (λ r. x ∷ r) (take-length-append xs ys)

pub has_prefix-append : (p s : Text) → has_prefix (p ++ s) p ≡ true
unfolding has_prefix
has_prefix-append [] s = refl
has_prefix-append (c ∷ p) s = ground (arith, has_prefix-append p s)

pub trim_prefix-append : (p s : Text) → trim_prefix (p ++ s) p ≡ s
unfolding trim_prefix
trim_prefix-append p s = rw has_prefix-append (drop-length-append p s)

module _ {ℓ} {A : Type ℓ} where
  pub length-drop : (i : ℕ) (xs : List A) → length (drop i xs) ≡ length xs - i
  length-drop zero xs = omega arith
  length-drop (suc i) [] = omega arith
  length-drop (suc i) (x ∷ xs) = omega (arith, length-drop i xs)

  drop-nil : (i : ℕ) → drop {A = A} i [] ≡ []
  drop-nil zero = refl
  drop-nil (suc i) = refl

  pub drop-drop : (i j k : ℕ) (xs : List A) → i + j ≡ k → drop j (drop i xs) ≡ drop k xs
  drop-drop zero j k xs e = let z : j ≡ k = omega arith in ap (λ n. drop n xs) z
  drop-drop (suc i) j k [] e = drop-nil j ∙ sym (drop-nil k)
  drop-drop (suc i) j zero (x ∷ xs) e = absurd (omega arith)
  drop-drop (suc i) j (suc k) (x ∷ xs) e = drop-drop i j k xs (omega arith)

-- What is at the start of an end is where the end starts.
pub last_index-append :
    (a b p : Text) → last_index b p ≡ some 0 → last_index (a ++ b) p ≡ some (length a)
unfolding last_index
last_index-append [] b p e = e
last_index-append (x ∷ a) b p e = rw (last_index-append a b p e) refl
