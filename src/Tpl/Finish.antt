-- ===== src/Tpl/Finish.antt =====
-- The text that the engine emits and the spans that follow it, `Finish` of tools/helmprov/tpl/prov.go.
mod Cuts
use cartograph_nvim.Base.{
  ℕ, ◌≤◌, Text, index, replace_all_empty, length, ◌≡◌, refl, sym, ap, Option, none, some, List, [],
  ◌∷◌, map, arith, if◌then◌else◌, is_some, true, false, Bool-cases, inl, inr, Option-cases,
}
use mathlib.Core.Path.{subst}
use cartograph_nvim.Base.RemoveLaws.{length-replace-none}
use cartograph_nvim.Tpl.Record.{Span, Recorder, find_file}
use cartograph_nvim.Tpl.Brackets.{set_file}
use cartograph_nvim.Tpl.Tiling.{find-set_file}
use cartograph_nvim.Tpl.Tiling.Spans.{Tiles}
unfoldable pub use Cuts.{no_value}
use Cuts.{Apart, cuts, shift, shift_mono, shift_end, shift_start, cuts-IsExact}

unfoldable shift_span : List ℕ → Span → Span
shift_span cs s = record s { start = shift cs s.start; stop = shift cs s.stop }

-- Finish: the text without its `<no value>`s, and the recorder with the spans of the file shifted.
unfoldable pub finish : Text → Text → Recorder → Text × Recorder
unfolding shift_span
finish name raw r = (
  replace_all_empty raw no_value,
  elim (find_file name r.files) [
    | none ↦ r
    | some spans ↦
        if is_some (index raw no_value)
        then record r { files = set_file name (map (shift_span (cuts raw)) spans) r.files }
        else r
  ],
)

Tiles-shift :
    (cs : List ℕ) (a b : ℕ) (spans : List Span)
    → Apart 0 cs
    → Tiles a spans b
    → Tiles (shift cs a) (map (shift_span cs) spans) (shift cs b)
unfolding shift_span
Tiles-shift cs a b [] p e = ap (shift cs) e
Tiles-shift cs a b (s ∷ spans) p (e, l, t) =
    (ap (shift cs) e, shift_mono a s.stop cs p l, Tiles-shift cs s.stop b spans p t)

shifted-Tiles :
    (raw : Text) (spans : List Span)
    → Tiles 0 spans (length raw)
    → Tiles 0 (map (shift_span (cuts raw)) spans) (length (replace_all_empty raw no_value))
shifted-Tiles raw spans t =
    let shifted = map (shift_span (cuts raw)) spans in
    subst (λ a. Tiles a shifted (length (replace_all_empty raw no_value))) (shift_start (cuts raw))
      (subst (Tiles (shift (cuts raw) 0) shifted) (shift_end raw)
        (Tiles-shift (cuts raw) 0 (length raw) spans (cuts-IsExact raw).0 t))

-- Where the spans on file under a name tile a text, the spans on file after Finish of the text tile
-- the text that Finish returns.
pub finish-Tiles :
    (name raw : Text) (r : Recorder) (spans : List Span)
    → find_file name r.files ≡ some spans
    → Tiles 0 spans (length raw)
    → (shifted : List Span) × (find_file name (finish name raw r).1.files ≡ some shifted)
      × Tiles 0 shifted (length (finish name raw r).0)
unfolding finish
finish-Tiles name raw r spans e t = elim (Option-cases (index raw no_value)) [
  | inl c ↦
      rw (finish, e, c)
        (spans, e, subst (Tiles 0 spans) (sym (length-replace-none raw no_value c)) t)
  | inr (j, c) ↦
      let shifted = map (shift_span (cuts raw)) spans in
      rw (finish, e, c) (shifted, find-set_file name shifted r.files, shifted-Tiles raw spans t)
]
