-- ===== src/Engine/Prepared.antt =====
-- What an engine's render as a whole keeps and leaves on file, render of
-- tools/helmprov/engine/engine.go.
use cartograph_nvim.Base.{ℕ, Text, ◌≡◌, false, some, List, arith}
use cartograph_nvim.Tpl.Host.{Host}
use cartograph_nvim.Tpl.Record.{Recorder}
use cartograph_nvim.Tpl.World.{
  World, Result, ok, panics, exec_error, runtime_error, walk_break, walk_continue, out_of_fuel,
}
use cartograph_nvim.Tpl.Noting.{RecorderLaws, On}
use cartograph_nvim.Engine.Order.{sort_templates}
use cartograph_nvim.Engine.Distinct.{IsDistinct}
use cartograph_nvim.Engine.Render.{Renderable, Rendering, done, render, template_names}
use cartograph_nvim.Engine.Rendered.{AllTile, render_tiles}
use cartograph_nvim.Engine.Kept.{render_keeps}
use cartograph_nvim.Engine.Prepare.{
  Engine, Loaded, loaded, refused, recovered, in_group, render_loaded, parse_keys, new_group,
  engine_render,
}

-- Texts come only from a rendering that did not panic.
recovered-done :
    (x : Result Rendering) (texts : List (Text × Text))
    → recovered x ≡ ok (done texts)
    → x ≡ ok (done texts)
recovered-done (ok r) texts e = e
recovered-done (panics (exec_error name m)) texts e = ground arith
recovered-done (panics (runtime_error m)) texts e = ground arith
recovered-done (panics walk_break) texts e = ground arith
recovered-done (panics walk_continue) texts e = ground arith
recovered-done (panics out_of_fuel) texts e = ground arith

module _ (h : Host) (fuel : ℕ) (tpls : List (Text × Renderable)) where
  loaded_tiles :
      (l : Loaded) (w : World) (r : Recorder) (texts : List (Text × Text))
      → w.trace.rec ≡ some r
      → r.depth ≡ 0
      → r.symbolic ≡ false
      → IsDistinct (template_names tpls)
      → (render_loaded h fuel tpls l w).0 ≡ ok (done texts)
      → AllTile texts (render_loaded h fuel tpls l w).1
  unfolding render_loaded
  loaded_tiles (refused name e) w r texts p d s i o = ground arith
  loaded_tiles (loaded group) w r texts p d s i o =
      let v = in_group group w in
      render_tiles h fuel tpls v r texts p d s i (recovered-done (render h fuel tpls v).0 texts o)

  loaded_keeps :
      (P : Recorder → Type 0) (laws : RecorderLaws P) (l : Loaded) (w : World)
      → On P w.trace.rec
      → On P (render_loaded h fuel tpls l w).1.trace.rec
  unfolding render_loaded
  loaded_keeps P laws (refused name e) w i = i
  loaded_keeps P laws (loaded group) w i = render_keeps P laws h fuel tpls (in_group group w) i

-- The texts of a map of templates with distinct names are tiled by the spans on file.
pub engine_render_tiles :
    (g : Engine) (h : Host) (fuel : ℕ) (tpls : List (Text × Renderable)) (w : World) (r : Recorder)
    (texts : List (Text × Text))
    → w.trace.rec ≡ some r
    → r.depth ≡ 0
    → r.symbolic ≡ false
    → IsDistinct (template_names tpls)
    → (engine_render g h fuel tpls w).0 ≡ ok (done texts)
    → AllTile texts (engine_render g h fuel tpls w).1
unfolding engine_render
engine_render_tiles g h fuel tpls =
    loaded_tiles h fuel tpls
      (parse_keys g tpls (sort_templates (template_names tpls)) (new_group g))

pub engine_render_keeps :
    (P : Recorder → Type 0) (laws : RecorderLaws P) (g : Engine) (h : Host) (fuel : ℕ)
    (tpls : List (Text × Renderable)) (w : World)
    → On P w.trace.rec
    → On P (engine_render g h fuel tpls w).1.trace.rec
unfolding engine_render
engine_render_keeps P laws g h fuel tpls =
    loaded_keeps h fuel tpls P laws
      (parse_keys g tpls (sort_templates (template_names tpls)) (new_group g))
