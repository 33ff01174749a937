-- ===== src/Report/Slices.antt =====
-- The contents of the document's files cut by their spans, main of
-- tools/helmprov/cmd/helmprov/main.go.
use cartograph_nvim.Engine.Prepare.{Engine}
use cartograph_nvim.Base.{
  ℕ, zero, suc, ◌+◌, ◌-◌, ◌≤◌, Text, Bool, false, ◌≡◌, refl, sym, ap, ◌∙◌, Option, some, List, [],
  ◌∷◌, ◌++◌, length, take, drop, concat, arith,
}
use mathlib.Core.Path.{ap₂}
use cartograph_nvim.Base.TextLaws.{drop-drop}
use cartograph_nvim.Tpl.Host.{Host}
use cartograph_nvim.Tpl.Record.{Span}
use cartograph_nvim.Tpl.World.{World}
use cartograph_nvim.Tpl.Tiling.Spans.{Tiles}
use cartograph_nvim.Tpl.Value.{Entries}
use cartograph_nvim.Engine.Collect.{Charter, all_templates}
use cartograph_nvim.Engine.Collected.{all_templates-IsDistinct}
use cartograph_nvim.Report.{FileOut, Report, chart_report}
use cartograph_nvim.Report.Tiles.{FilesTile, report_tiles}

-- The bytes of a text that a span stands for.
abbrev pub slice : Text → Span → Text
slice text s = take (s.stop - s.start) (drop s.start text)

abbrev pub slices : Text → List Span → List Text
slices text [] = []
slices text (s ∷ ss) = slice text s ∷ slices text ss

-- The slices of each file, one after the other, are the file.
abbrev pub AllWhole : List (Text × FileOut) → Type 0
AllWhole [] = Unit {0}
AllWhole ((name, f) ∷ fs) = (concat (slices f.content f.spans) ≡ f.content) × AllWhole fs

take_nil : (n : ℕ) → take {A = ℕ} n [] ≡ []
take_nil zero = refl
take_nil (suc n) = refl

take_sum : (m n k : ℕ) (t : Text) → m + n ≡ k → take k t ≡ take m t ++ take n (drop m t)
take_sum zero n k t e = let same : n ≡ k = omega (arith, e) in ap (λ i. take i t) (sym same)
take_sum (suc m) n zero t e = let no : suc m ≤ 0 = omega (arith, e) in ground arith
take_sum (suc m) n (suc k) [] e = sym (take_nil n)
take_sum (suc m) n (suc k) (c ∷ t) e = ap (λ r. c ∷ r) (take_sum m n k t (omega (arith, e)))

take_all : (t : Text) → take (length t) t ≡ t
take_all [] = refl
take_all (c ∷ t) = ap (λ r. c ∷ r) (take_all t)

Tiles-le : (a : ℕ) (ss : List Span) (b : ℕ) → Tiles a ss b → a ≤ b
Tiles-le a [] b e = omega (arith, e)
Tiles-le a (s ∷ ss) b (e, l, t) = omega (arith, l, Tiles-le s.stop ss b t)

concat-slices :
    (text : Text) (a : ℕ) (ss : List Span) (b : ℕ)
    → Tiles a ss b
    → concat (slices text ss) ≡ take (b - a) (drop a text)
concat-slices text a [] b e =
    let z : 0 ≡ b - a = omega (arith, e) in ap (λ n. take n (drop a text)) z
concat-slices text a (s ∷ ss) b (e, l, t) =
    let k = Tiles-le s.stop ss b t in
    let first : slice text s ≡ take (s.stop - a) (drop a text) =
      ap (λ i. take (s.stop - i) (drop i text)) e in
    let rest : concat (slices text ss) ≡ take (b - s.stop) (drop (s.stop - a) (drop a text)) =
      concat-slices text s.stop ss b t
      ∙ ap (λ r. take (b - s.stop) r)
          (sym (drop-drop a (s.stop - a) s.stop text (omega (arith, l)))) in
    ap₂ (λ x y. x ++ y) first rest
    ∙ sym (take_sum (s.stop - a) (b - s.stop) (b - a) (drop a text) (omega (arith, l, k)))

minus_zero : (n : ℕ) → n - 0 ≡ n
minus_zero n = omega arith

AllWhole-FilesTile : (fs : List (Text × FileOut)) → FilesTile fs → AllWhole fs
AllWhole-FilesTile [] t = tt
AllWhole-FilesTile ((name, f) ∷ fs) (t, ts) = (
  concat-slices f.content 0 f.spans (length f.content) t
      ∙ (ap (λ n. take n f.content) (minus_zero (length f.content)) ∙ take_all f.content),
  AllWhole-FilesTile fs ts,
)

-- Where the program prints the document of a render of a chart with values, the bytes of each file are
-- those of its spans, one after the other.
pub chart_report-AllWhole :
    (g : Engine) (h : Host) (fuel : ℕ) (table : Entries → Text → Option Entries) (c : Charter)
    (vals explored_vals : Entries) (w : World) (branches dots : Bool) (doc : Report)
    → chart_report g h fuel table c vals explored_vals w false branches dots ≡ some doc
    → AllWhole doc.files
unfolding chart_report
chart_report-AllWhole g h fuel table c vals explored_vals w branches dots doc e =
    AllWhole-FilesTile doc.files (
      report_tiles g h fuel (all_templates table false c vals)
        (all_templates table false c explored_vals) w branches dots doc
        (all_templates-IsDistinct table false c vals) e)
