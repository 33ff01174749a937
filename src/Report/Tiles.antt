-- ===== src/Report/Tiles.antt =====
-- The files of the document, main of tools/helmprov/cmd/helmprov/main.go.
use cartograph_nvim.Engine.Prepare.{Engine, engine_render}
use cartograph_nvim.Engine.Prepared.{engine_render_tiles}
use cartograph_nvim.Base.{
  ℕ, Text, Bool, true, false, ◌≡◌, refl, sym, ap, ◌∙◌, Option-cases, some, inl, inr, List, [], ◌∷◌,
  length, arith,
}
use mathlib.Core.Path.{subst}
use cartograph_nvim.Tpl.Host.{Host}
use cartograph_nvim.Tpl.Record.{Recorder, find_file, new_recorder}
use cartograph_nvim.Tpl.World.{World, Result, ok, panics}
use cartograph_nvim.Tpl.Filing.{filed}
use cartograph_nvim.Tpl.Tiling.Spans.{Tiles}
use cartograph_nvim.Engine.Distinct.{IsDistinct}
use cartograph_nvim.Engine.Render.{Renderable, Rendering, done, error, template_names}
use cartograph_nvim.Engine.Rendered.{AllTile}
use cartograph_nvim.Report.{
  FileOut, Report, first_recorder, explored_recorder, under, rendering_of, spans_of, file_outs,
  taken_report, branch_report, first_report, report,
}

-- The spans of each file tile its content.
abbrev pub FilesTile : List (Text × FileOut) → Type 0
FilesTile [] = Unit {0}
FilesTile ((name, f) ∷ fs) = Tiles 0 f.spans (length f.content) × FilesTile fs

outs-FilesTile :
    (first : Recorder) (texts : List (Text × Text)) (w : World)
    → w.trace.rec ≡ some first
    → AllTile texts w
    → FilesTile (file_outs first texts)
unfolding file_outs filed spans_of
outs-FilesTile first [] w e a = tt
outs-FilesTile first ((name, text) ∷ texts) w e ((spans, f, t), a) =
    let k : find_file name first.files ≡ some spans = subst (λ o. filed name o ≡ some spans) e f in
    (rw k t, outs-FilesTile first texts w e a)

rendering-FilesTile :
    (x : Result Rendering × World) (texts : List (Text × Text)) (first : Recorder)
    → ((ts : List (Text × Text)) → x.0 ≡ ok (done ts) → AllTile ts x.1)
    → rendering_of x ≡ some (texts, first)
    → FilesTile (file_outs first texts)
unfolding rendering_of
rendering-FilesTile (ok (done ts), w) texts first a = elim (Option-cases w.trace.rec) [
  | inl n ↦ rw n λ e. ground arith
  | inr (r, c) ↦ rw c λ e.
      let same : ts ≡ texts = ground arith in
      let own : r ≡ first = ground arith in
      subst (λ l. FilesTile (file_outs first l)) same
        (outs-FilesTile first ts w (c ∙ ap some own) (a ts refl))
]
rendering-FilesTile (ok (error n m), w) texts first a = λ e. ground arith
rendering-FilesTile (panics p, w) texts first a = λ e. ground arith

branch_report_files :
    (g : Engine) (h : Host) (fuel : ℕ) (tpls explored_tpls : List (Text × Renderable)) (w : World)
    (res doc : Report)
    → branch_report g h fuel tpls explored_tpls w res ≡ some doc
    → doc.files ≡ res.files
unfolding branch_report
branch_report_files g h fuel tpls explored_tpls w res doc =
    let x = engine_render g h fuel explored_tpls (under explored_recorder w) in
    elim (Option-cases (rendering_of x)) [
      | inl n ↦ rw (branch_report, n) λ e. ground arith
      | inr (y, c) ↦ rw (branch_report, c) λ e. ground arith
    ]

first_report_files :
    (g : Engine) (h : Host) (fuel : ℕ) (tpls explored_tpls : List (Text × Renderable)) (w : World)
    (branches : Bool) (texts : List (Text × Text)) (first : Recorder) (doc : Report)
    → first_report g h fuel tpls explored_tpls w false branches texts first ≡ some doc
    → doc.files ≡ file_outs first texts
unfolding first_report
first_report_files g h fuel tpls explored_tpls w true texts first doc e =
    branch_report_files g h fuel tpls explored_tpls w (taken_report texts first) doc e
first_report_files g h fuel tpls explored_tpls w false texts first doc e = ground arith

-- Where the program prints a document of a render with values, the spans of each of its files tile the
-- file's content, with the arms that the values did not take asked for or not.
pub report_tiles :
    (g : Engine) (h : Host) (fuel : ℕ) (tpls explored_tpls : List (Text × Renderable)) (w : World)
    (branches dots : Bool) (doc : Report)
    → IsDistinct (template_names tpls)
    → report g h fuel tpls explored_tpls w false branches dots ≡ some doc
    → FilesTile doc.files
unfolding report
report_tiles g h fuel tpls explored_tpls w branches dots doc distinct =
    let r = first_recorder false dots in
    let depth : r.depth ≡ 0 = unfold first_recorder new_recorder in refl in
    let values : r.symbolic ≡ false = unfold first_recorder new_recorder in refl in
    let x = engine_render g h fuel tpls (under r w) in
    elim (Option-cases (rendering_of x)) [
      | inl n ↦ rw (report, n) λ e. ground arith
      | inr (y, c) ↦
          let tiles =
            rendering-FilesTile x y.0 y.1
              (λ ts. engine_render_tiles g h fuel tpls (under r w) r ts refl depth values distinct)
              c in
          rw (report, c)
            λ e.
              let files = first_report_files g h fuel tpls explored_tpls w branches y.0 y.1 doc e in
              subst FilesTile (sym files) tiles
    ]
