-- ===== src/Engine/Filed.antt =====
-- What rendering one template leaves on file, render of tools/helmprov/engine/engine.go.
use cartograph_nvim.Base.{
  ℕ, Text, text_eq, text_eq_sound, false, ◌≡◌, refl, sym, ap, ◌∙◌, none, some, Option, Option-cases,
  Bool-cases, inl, inr, List, [], ◌∷◌, length, arith, index, is_some,
}
use mathlib.Core.Path.{subst}
use cartograph_nvim.Tpl.Host.{Host, Template, lookup_template}
use cartograph_nvim.Tpl.Record.{Recorder, Span, find_file}
use cartograph_nvim.Tpl.World.{World, Result, ok, panics, continue, pure, ◌>>=◌, inner}
use cartograph_nvim.Tpl.Run.{execute}
use cartograph_nvim.Tpl.Finish.{finish, finish-Tiles, no_value}
use cartograph_nvim.Tpl.Tiling.{FilesTiles, execute_tiles}
use cartograph_nvim.Tpl.Tiling.Spans.{Tiles}
use cartograph_nvim.Tpl.Balance.{frame_in, execute_balanced}
use cartograph_nvim.Tpl.Balance.Frame.{Frame, frame_of}
use cartograph_nvim.Tpl.Filing.{filed, find-set_other, execute_keeps_files}
use cartograph_nvim.Engine.Render.{
  Renderable, rendered, is_partial, template_vals, finish_text, finish_outcome, render_file,
}

-- A recorder that is not inside a render and that is not symbolic is active.
abbrev pub IsTop : World → Type 0
IsTop w = (f : Frame) × (frame_in w ≡ some f) × (f.depth ≡ 0) × (f.symbolic ≡ false)

-- The spans on file under a name tile the text.
abbrev pub HasTiles : Text → Text → World → Type 0
HasTiles name text w =
    (spans : List Span) × (filed name w.trace.rec ≡ some spans) × Tiles 0 spans (length text)

top_recorder :
    (w : World)
    → IsTop w
    → (r : Recorder) × (w.trace.rec ≡ some r) × (r.depth ≡ 0) × (r.symbolic ≡ false)
top_recorder w (f, e, d, s) = elim (Option-cases w.trace.rec) [
  | inl n ↦ ground arith
  | inr (r, c) ↦
      let same : frame_of r ≡ f = ground arith in
      (r, c, ap (λ x. x.depth) same ∙ d, ap (λ x. x.symbolic) same ∙ s)
]

lookup-name :
    (name : Text) (ts : List Template) (t : Template)
    → lookup_template ts name ≡ some t
    → t.name ≡ name
unfolding lookup_template
lookup-name name [] t e = ground arith
lookup-name name (u ∷ ts) t e = elim (Bool-cases (text_eq u.name name)) [
  | inl c ↦ text_eq_sound t.name name (ground arith)
  | inr c ↦ ground (arith, lookup-name name ts t)
]

finish-frame : (name raw : Text) (r : Recorder) → frame_of (finish name raw r).1 ≡ frame_of r
unfolding finish
finish-frame name raw r = elim (Option-cases (find_file name r.files)) [
  | inl n ↦ rw (finish, n) refl
  | inr (spans, e) ↦ elim (Bool-cases (is_some (index raw no_value))) [
    | inl b ↦ rw (finish, e, b) refl
    | inr b ↦ rw (finish, e, b) refl
  ]
]

finish_files :
    (name raw other : Text) (r : Recorder)
    → text_eq name other ≡ false
    → find_file other (finish name raw r).1.files ≡ find_file other r.files
unfolding finish
finish_files name raw other r n = elim (Option-cases (find_file name r.files)) [
  | inl c ↦ rw (finish, c) refl
  | inr (spans, e) ↦ elim (Bool-cases (is_some (index raw no_value))) [
    | inl b ↦ rw (finish, e, b) (find-set_other name other _ r.files n)
    | inr b ↦ rw (finish, e, b) refl
  ]
]

outcome-frame :
    (name : Text) (x : Result (Text × Option Text) × World)
    → frame_in (continue (finish_outcome name) x.0 x.1).1 ≡ frame_in x.1
unfolding finish_outcome finish_text pure ◌>>=◌
outcome-frame name (panics p, w) = refl
outcome-frame name (ok (raw, some e), w) = refl
outcome-frame name (ok (raw, none), w) = elim (Option-cases w.trace.rec) [
  | inl n ↦ rw n refl
  | inr (r, e) ↦ rw e (ap some (finish-frame name raw r))
]

outcome_files :
    (name other : Text) (x : Result (Text × Option Text) × World)
    → text_eq name other ≡ false
    → filed other (continue (finish_outcome name) x.0 x.1).1.trace.rec ≡ filed other x.1.trace.rec
unfolding finish_outcome finish_text pure ◌>>=◌ filed
outcome_files name other (panics p, w) n = refl
outcome_files name other (ok (raw, some e), w) n = refl
outcome_files name other (ok (raw, none), w) n = elim (Option-cases w.trace.rec) [
  | inl c ↦ rw c refl
  | inr (r, c) ↦ rw c (finish_files name raw other r n)
]

outcome-HasTiles :
    (name text : Text) (x : Result (Text × Option Text) × World)
    → ((raw : Text) → x.0 ≡ ok (raw, none) → FilesTiles name raw x.1)
    → (continue (finish_outcome name) x.0 x.1).0 ≡ ok (rendered text)
    → HasTiles name text (continue (finish_outcome name) x.0 x.1).1
unfolding finish_outcome finish_text pure ◌>>=◌ filed
outcome-HasTiles name text (panics p, w) t e = ground arith
outcome-HasTiles name text (ok (raw, some m), w) t e = ground arith
outcome-HasTiles name text (ok (raw, none), w) t e =
    let (r, spans, c, k, tiles) = t raw refl in
    let (shifted, f, g) = finish-Tiles name raw r spans k tiles in
    let same : (finish name raw r).0 ≡ text = ground arith in
    (shifted, rw c f, subst (λ s. Tiles 0 shifted (length s)) same g)

pub file-frame :
    (h : Host) (fuel : ℕ) (name : Text) (r : Renderable) (w : World)
    → frame_in (render_file h fuel name r w).1 ≡ frame_in w
unfolding render_file ◌>>=◌ inner pure
file-frame h fuel name r w = elim (Bool-cases (is_partial name)) [
  | inl p ↦ rw p refl
  | inr p ↦ elim (Option-cases (lookup_template w.inner.group.templates name)) [
    | inl n ↦ rw (p, n) refl
    | inr (t, e) ↦
        let v = template_vals name r in
        rw (p, e) (outcome-frame name (execute h fuel t v w) ∙ execute_balanced h fuel t v w)
  ]
]

pub file_files :
    (h : Host) (fuel : ℕ) (name other : Text) (r : Renderable) (w : World)
    → IsTop w
    → text_eq name other ≡ false
    → filed other (render_file h fuel name r w).1.trace.rec ≡ filed other w.trace.rec
unfolding render_file ◌>>=◌ inner pure
file_files h fuel name other r w top n = elim (Bool-cases (is_partial name)) [
  | inl p ↦ rw p refl
  | inr p ↦ elim (Option-cases (lookup_template w.inner.group.templates name)) [
    | inl c ↦ rw (p, c) refl
    | inr (t, e) ↦
        let v = template_vals name r in
        let (q, k, d, s) = top_recorder w top in
        let named : t.name ≡ name = lookup-name name w.inner.group.templates t e in
        let before : filed other w.trace.rec ≡ find_file other q.files =
          unfold filed in rw k refl in
        rw (p, e)
          (outcome_files name other (execute h fuel t v w) n
            ∙ (execute_keeps_files h fuel t v w q other k d (ap (λ x. text_eq x other) named ∙ n)
                ∙ sym before))
  ]
]

pub file-HasTiles :
    (h : Host) (fuel : ℕ) (name text : Text) (r : Renderable) (w : World)
    → IsTop w
    → (render_file h fuel name r w).0 ≡ ok (rendered text)
    → HasTiles name text (render_file h fuel name r w).1
unfolding render_file ◌>>=◌ inner pure
file-HasTiles h fuel name text r w top = elim (Bool-cases (is_partial name)) [
  | inl p ↦ rw p λ e. ground arith
  | inr p ↦ elim (Option-cases (lookup_template w.inner.group.templates name)) [
    | inl c ↦ rw (p, c) λ e. ground arith
    | inr (t, e) ↦
        let v = template_vals name r in
        let (q, k, d, s) = top_recorder w top in
        let named : t.name ≡ name = lookup-name name w.inner.group.templates t e in
        rw (p, e)
          (outcome-HasTiles name text (execute h fuel t v w) λ raw o.
            subst (λ n. FilesTiles n raw (execute h fuel t v w).1) named
              (execute_tiles h fuel t v w q raw none k d s o))
  ]
]
