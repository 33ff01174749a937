-- ===== src/Base/Texts.antt =====
-- Texts as lists of bytes, measured by native numbers, and what the program uses of Go's package
-- `strings`: HasPrefix, Index, LastIndex, TrimPrefix, Join, and ReplaceAll by the empty text.
use Prim.Native.Nat.{ℕ, zero, suc, ◌-◌}
use Prim.Native.Char.{code}
use Prim.Native.String.{String}
use mathlib.Core.Bool.{Bool, true, false, ◌&&◌}
use mathlib.Core.Option.{Option, none, some}
use mathlib.Core.List.{List, [], ◌∷◌, ◌++◌}
use cartograph_nvim.Base.Tests.{◌==◌, if◌then◌else◌}

abbrev pub Text : Type 0
Text = List ℕ

-- The bytes of an ASCII literal.
unfoldable pub codes : String → Text
codes String.[] = []
codes (String.◌∷◌ c s) = code c ∷ codes s

module _ {ℓ} {A : Type ℓ} where
  abbrev pub length : List A → ℕ
  length [] = 0
  length (x ∷ xs) = suc (length xs)

  abbrev pub take : ℕ → List A → List A
  take zero xs = []
  take (suc n) [] = []
  take (suc n) (x ∷ xs) = x ∷ take n xs

  abbrev pub drop : ℕ → List A → List A
  drop zero xs = xs
  drop (suc n) [] = []
  drop (suc n) (x ∷ xs) = drop n xs

  abbrev pub concat : List (List A) → List A
  concat [] = []
  concat (xs ∷ xss) = xs ++ concat xss

unfoldable pub has_prefix : Text → Text → Bool
has_prefix s [] = true
has_prefix [] (p ∷ ps) = false
has_prefix (c ∷ s) (p ∷ ps) = c == p && has_prefix s ps

-- The first place at which `sub` stands in `s`.
unfoldable pub index : Text → Text → Option ℕ
unfolding has_prefix
index [] sub = if has_prefix [] sub then some 0 else none
index (c ∷ s) sub =
    let later = index s sub in
    if has_prefix (c ∷ s) sub then some 0 else elim later [ none ↦ none | some i ↦ some (suc i) ]

unfoldable pub last_index : Text → Text → Option ℕ
unfolding has_prefix
last_index [] sub = if has_prefix [] sub then some 0 else none
last_index (c ∷ s) sub = elim (last_index s sub) [
  | some i ↦ some (suc i)
  | none ↦ if has_prefix (c ∷ s) sub then some 0 else none
]

unfoldable pub trim_prefix : Text → Text → Text
unfolding has_prefix
trim_prefix s p = if has_prefix s p then drop (length p) s else s

unfoldable pub join : List Text → Text → Text
join [] sep = []
join (x ∷ []) sep = x
join (x ∷ y ∷ r) sep = x ++ (sep ++ join (y ∷ r) sep)

-- strings.ReplaceAll(s, old, "") for a non-empty `old`: matches from the left, not overlapping.
-- `skip` counts the bytes of the match that is being dropped.
unfoldable pub remove_from : ℕ → Text → Text → Text
unfolding has_prefix
remove_from skip [] old = []
remove_from (suc skip) (c ∷ s) old = remove_from skip s old
remove_from zero (c ∷ s) old =
    let cut = remove_from (length old - 1) s old in
    let kept = c ∷ remove_from zero s old in if has_prefix (c ∷ s) old then cut else kept

unfoldable pub replace_all_empty : Text → Text → Text
unfolding remove_from
replace_all_empty s old = remove_from zero s old
