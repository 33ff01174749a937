-- ===== src/Engine/Kept.antt =====
-- What the recording hooks and Finish keep holds after the rendering of a chart's templates, render of
-- tools/helmprov/engine/engine.go.
use cartograph_nvim.Base.{
  ℕ, Text, sym, none, some, Option, Option-cases, Bool-cases, inl, inr, List, [], ◌∷◌, index,
  is_some,
}
use mathlib.Core.Path.{subst}
use cartograph_nvim.Tpl.Host.{Host, lookup_template, lookup_key}
use cartograph_nvim.Tpl.Record.{Recorder, find_file}
use cartograph_nvim.Tpl.World.{World, Result, ok, panics, M, continue, pure, ◌>>=◌, inner}
use cartograph_nvim.Tpl.Run.{execute}
use cartograph_nvim.Tpl.Finish.{finish, no_value}
use cartograph_nvim.Tpl.Noting.{RecorderLaws, On}
use cartograph_nvim.Tpl.Noting.Runs.{execute_keeps}
use cartograph_nvim.Engine.Render.{
  Renderable, Outcome, skipped, rendered, failed, Rendering, add_text, is_partial, template_vals,
  finish_text, finish_outcome, render_file, render_rest, render_keys, template_names, render,
}
use cartograph_nvim.Engine.Order.{sort_templates}
use cartograph_nvim.Engine.Rendered.{added_world}

module _ (P : Recorder → Type 0) (l : RecorderLaws P) where
  finish_keeps : (name raw : Text) (r : Recorder) → P r → P (finish name raw r).1
  unfolding finish
  finish_keeps name raw r i = elim (Option-cases (find_file name r.files)) [
    | inl n ↦ rw (finish, n) i
    | inr (spans, e) ↦ elim (Bool-cases (is_some (index raw no_value))) [
      | inl b ↦ rw (finish, e, b) (l.files r _ i)
      | inr b ↦ rw (finish, e, b) i
    ]
  ]

  outcome_keeps :
      (name : Text) (x : Result (Text × Option Text) × World)
      → On P x.1.trace.rec
      → On P (continue (finish_outcome name) x.0 x.1).1.trace.rec
  unfolding finish_outcome finish_text pure ◌>>=◌
  outcome_keeps name (panics p, w) i = i
  outcome_keeps name (ok (raw, some e), w) i = i
  outcome_keeps name (ok (raw, none), w) i = elim (Option-cases w.trace.rec) [
    | inl n ↦ rw n tt
    | inr (r, e) ↦ rw e (finish_keeps name raw r (subst (λ o. On P o) e i))
  ]

  file_keeps :
      (h : Host) (fuel : ℕ) (name : Text) (r : Renderable) (w : World)
      → On P w.trace.rec
      → On P (render_file h fuel name r w).1.trace.rec
  unfolding render_file ◌>>=◌ inner pure
  file_keeps h fuel name r w i = elim (Bool-cases (is_partial name)) [
    | inl p ↦ rw p i
    | inr p ↦ elim (Option-cases (lookup_template w.inner.group.templates name)) [
      | inl n ↦ rw (p, n) i
      | inr (t, e) ↦
          let v = template_vals name r in
          rw (p, e) (outcome_keeps name (execute h fuel t v w) (execute_keeps P l h fuel t v w i))
    ]
  ]

  rest_keeps :
      (name : Text) (rest : M Rendering) (x : Result Outcome × World)
      → On P (rest x.1).1.trace.rec
      → On P x.1.trace.rec
      → On P (continue (render_rest name rest) x.0 x.1).1.trace.rec
  unfolding render_rest ◌>>=◌ pure
  rest_keeps name rest (panics p, w) k i = i
  rest_keeps name rest (ok skipped, w) k i = k
  rest_keeps name rest (ok (failed m), w) k i = i
  rest_keeps name rest (ok (rendered t), w) k i =
      subst (λ w. On P w.trace.rec) (sym (added_world (add_text name t) (rest w))) k

  keys_keep :
      (h : Host) (fuel : ℕ) (tpls : List (Text × Renderable)) (names : List Text) (w : World)
      → On P w.trace.rec
      → On P (render_keys h fuel tpls names w).1.trace.rec
  unfolding render_keys ◌>>=◌ pure
  keys_keep h fuel tpls [] w i = i
  keys_keep h fuel tpls (name ∷ names) w i = elim (Option-cases (lookup_key name tpls)) [
    | inl n ↦ rw n (keys_keep h fuel tpls names w i)
    | inr (r, e) ↦
        let x = render_file h fuel name r w in
        let k = file_keeps h fuel name r w i in
        rw e
          (rest_keeps name (render_keys h fuel tpls names) x (keys_keep h fuel tpls names x.1 k) k)
  ]

  pub render_keeps :
      (h : Host) (fuel : ℕ) (tpls : List (Text × Renderable)) (w : World)
      → On P w.trace.rec
      → On P (render h fuel tpls w).1.trace.rec
  unfolding render
  render_keeps h fuel tpls w i = keys_keep h fuel tpls (sort_templates (template_names tpls)) w i
