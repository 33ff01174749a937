-- ===== src/Tpl/Finish/Cuts.antt =====
-- The cuts that the removal of a text makes, and the shift of a position by them, in `Finish` of
-- tools/helmprov/tpl/prov.go.
use cartograph_nvim.Base.{
  ℕ, zero, suc, ◌+◌, ◌-◌, ◌≤◌, Text, codes, index, replace_all_empty, length, drop, ◌≡◌, refl, ◌∙◌,
  none, some, List, [], ◌∷◌, arith, if◌then◌else◌, ltb, leb, Option-cases, inl, inr,
}
use mathlib.Core.Path.{subst}
use cartograph_nvim.Base.TextLaws.{length-drop, drop-drop}
use cartograph_nvim.Base.RemoveLaws.{length-replace-none, index-IsCut}

unfoldable pub no_value : Text
unfolding codes
no_value = codes "<no value>"

-- The places of the occurrences from `i` on: each search starts where the occurrence before it
-- ended. `fuel` bounds the occurrences.
unfoldable pub cuts_from : ℕ → ℕ → Text → List ℕ
cuts_from zero i raw = []
cuts_from (suc fuel) i raw = elim (index (drop i raw) no_value) [
  | none ↦ []
  | some j ↦ (i + j) ∷ cuts_from fuel (i + j + length no_value) raw
]

-- Each occurrence takes a byte at least, so the length of the text is enough fuel.
unfoldable pub cuts : Text → List ℕ
unfolding cuts_from
cuts raw = cuts_from (length raw) 0 raw

-- How many bytes before a position are cut.
unfoldable pub removed : List ℕ → ℕ → ℕ
removed [] x = 0
removed (c ∷ cs) x = (if leb (c + 10) x then 10 else if ltb c x then x - c else 0) + removed cs x

unfoldable pub shift : List ℕ → ℕ → ℕ
unfolding removed
shift cs x = x - removed cs x

-- Cuts in order, from `a` on, that do not overlap.
abbrev pub Apart : ℕ → List ℕ → Type 0
Apart a [] = Unit {0}
Apart a (c ∷ cs) = (a ≤ c) × Apart (c + 10) cs

removed-bound : (a x : ℕ) (cs : List ℕ) → Apart a cs → removed cs x ≤ x - a
unfolding removed
removed-bound a x [] p = omega arith
removed-bound a x (c ∷ cs) (p, q) = ground (arith, removed-bound (c + 10) x cs q)

removed-step :
    (a x y : ℕ) (cs : List ℕ) → Apart a cs → x ≤ y → removed cs y ≤ removed cs x + (y - x)
unfolding removed
removed-step a x y [] p l = omega arith
removed-step a x y (c ∷ cs) (p, q) l = ground (
  arith,
  removed-step (c + 10) x y cs q l,
  removed-bound (c + 10) x cs q,
  removed-bound (c + 10) y cs q,
)

pub shift_mono : (x y : ℕ) (cs : List ℕ) → Apart 0 cs → x ≤ y → shift cs x ≤ shift cs y
unfolding shift
shift_mono x y cs p l =
    omega (arith, removed-step 0 x y cs p l, removed-bound 0 x cs p, removed-bound 0 y cs p)

cut_none :
    (i : ℕ) (raw : Text)
    → index (drop i raw) no_value ≡ none
    → length (replace_all_empty (drop i raw) no_value) ≡ length raw - i
cut_none i raw e = length-replace-none (drop i raw) no_value e ∙ length-drop i raw

cut_some :
    (i j : ℕ) (raw : Text)
    → index (drop i raw) no_value ≡ some j
    → (j + 10 ≤ length raw - i)
      × (length (replace_all_empty (drop i raw) no_value)
          ≡ j + length (replace_all_empty (drop (i + j + 10) raw) no_value))
cut_some i j raw e =
    let size : length no_value ≡ 10 = unfold no_value in refl in
    let (l, k) = index-IsCut 9 j (drop i raw) no_value size e (j + 10) (omega (arith, size)) in
    (
      omega (arith, length-drop i raw),
      subst
          (λ s.
            length (replace_all_empty (drop i raw) no_value)
            ≡ j + length (replace_all_empty s no_value))
          (drop-drop i (j + 10) (i + j + 10) raw (omega arith)) k,
    )

-- The cuts from a place on are apart, and take from the end what the removal takes.
abbrev pub IsExact : ℕ → Text → List ℕ → Type 0
IsExact i raw cs =
    Apart i cs
    × (removed cs (length raw) + length (replace_all_empty (drop i raw) no_value) ≡ length raw - i)

cuts_from-none :
    (fuel i : ℕ) (raw : Text)
    → index (drop i raw) no_value ≡ none
    → IsExact i raw (cuts_from fuel i raw)
unfolding cuts_from removed
cuts_from-none zero i raw e = (tt, omega (arith, cut_none i raw e))
cuts_from-none (suc fuel) i raw e = rw (cuts_from, e) (tt, omega (arith, cut_none i raw e))

cut_more :
    (i j : ℕ) (raw : Text) (cs : List ℕ)
    → index (drop i raw) no_value ≡ some j
    → IsExact (i + j + 10) raw cs
    → IsExact i raw ((i + j) ∷ cs)
unfolding removed
cut_more i j raw cs e (p, q) =
    let (l, k) = cut_some i j raw e in ((omega arith, p), ground (arith, k, q, l))

cuts_from-lem :
    (fuel i : ℕ) (raw : Text) → length raw ≤ fuel + i → IsExact i raw (cuts_from fuel i raw)
unfolding cuts_from no_value
cuts_from-lem zero i raw b = elim (Option-cases (index (drop i raw) no_value)) [
  | inl e ↦ cuts_from-none zero i raw e
  | inr (j, e) ↦ absurd (omega (arith, (cut_some i j raw e).0))
]
cuts_from-lem (suc f) i raw b = elim (Option-cases (index (drop i raw) no_value)) [
  | inl e ↦ cuts_from-none (suc f) i raw e
  | inr (j, e) ↦
      rw (cuts_from, e) (cut_more i j raw _ e (cuts_from-lem f (i + j + 10) raw (omega arith)))
]

-- The removal, seen from the end of a text and from its start.
pub cuts-IsExact : (raw : Text) → IsExact 0 raw (cuts raw)
unfolding cuts
cuts-IsExact raw = cuts_from-lem (length raw) 0 raw (omega arith)

pub shift_end :
    (raw : Text) → shift (cuts raw) (length raw) ≡ length (replace_all_empty raw no_value)
unfolding shift
shift_end raw = let (p, e) = cuts-IsExact raw in omega (arith, e)

pub shift_start : (cs : List ℕ) → shift cs 0 ≡ 0
unfolding shift
shift_start cs = omega arith
