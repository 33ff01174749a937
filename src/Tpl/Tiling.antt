-- ===== src/Tpl/Tiling.antt =====
-- The spans of a top-level render tile its output, unless the render is symbolic.
pub mod Spans
mod Steps
use cartograph_nvim.Base.{
  ℕ, zero, suc, ◌+◌, ◌≤◌, Text, text_eq, Bool, true, false, ◌≡◌, refl, sym, ap, ◌∙◌, none, some,
  Option, List, [], ◌∷◌, arith, length, is_some, if◌then◌else◌, text_eq_refl,
}
use mathlib.Core.Path.{subst}
use cartograph_nvim.Tpl.Value.{Value}
use cartograph_nvim.Tpl.Host.{Host, Template}
use cartograph_nvim.Tpl.Record.{File, Recorder, Span, find_file}
use cartograph_nvim.Tpl.World.{World, Panic, Result, ok, panics}
use cartograph_nvim.Tpl.Prov.{is_symbolic}
use cartograph_nvim.Tpl.Brackets.{
  enter, leave, leave_recorder, execute_with, set_file, recover_error,
}
use cartograph_nvim.Tpl.Calls.{Calls}
use cartograph_nvim.Tpl.Call
use cartograph_nvim.Tpl.Run.{calls, execute}
use cartograph_nvim.Tpl.Logic.{Logic, calls-related, execute-related, walks_run_template}
use Spans.{Tiles, IsTiled, Tiling}
use Steps.{tiling_logic, tiling-Uniform, tiling_logic-Walks}

pub find-set_file :
    (name : Text) (spans : List Span) (fs : List File)
    → find_file name (set_file name spans fs) ≡ some spans
unfolding find_file set_file
find-set_file name spans [] = ground (arith, text_eq_refl name)
find-set_file name spans (f ∷ fs) = ground (arith, text_eq_refl name, find-set_file name spans fs)

-- A world files, under a name, spans that tile a text.
abbrev pub FilesTiles : Text → Text → World → Type 0
FilesTiles name text w =
    (r : Recorder) × (spans : List Span) × (w.trace.rec ≡ some r)
    × (find_file name r.files ≡ some spans)
    × Tiles 0 spans (length text)

entered-IsTiled : (t : Template) (v : Value) (w : World) → IsTiled (enter t v w)
unfolding enter
entered-IsTiled t v w n e = ground arith

entered-counts :
    (t : Template) (v : Value) (w : World) (r : Recorder)
    → w.trace.rec ≡ some r
    → r.depth ≡ 0
    → is_some (enter t v w).trace.count ≡ true
unfolding enter
entered-counts t v w r e d = ground arith

pub some_of : {A : Type 0} (o : Option A) → is_some o ≡ true → (a : A) × (o ≡ some a)
some_of none e = cc
some_of (some a) e = (a, refl)

left-FilesTiles :
    (t : Template) (w w' : World)
    → IsTiled w'
    → is_some w'.trace.count ≡ true
    → is_some w'.trace.rec ≡ true
    → FilesTiles t.name w'.out (leave t w w')
unfolding leave leave_recorder
left-FilesTiles t w w' tiled counts recs =
    let (n, e) = some_of w'.trace.count counts in
    let (r, k) = some_of w'.trace.rec recs in
    let (l, tiles) = tiled n e in
    (
      leave_recorder t.name w' r,
      w'.trace.spans,
      ground arith,
      ground (arith, find-set_file t.name w'.trace.spans r.files),
      subst (λ b. Tiles 0 w'.trace.spans b) l tiles,
    )

result_text :
    (buf text : Text) (err : Option Text) (r : Result (Unit {0}))
    → recover_error buf r ≡ ok (text, err)
    → buf ≡ text
result_text buf text err (ok u) e = cc
result_text buf text err (panics p) e = ground arith

-- A top-level render under a recorder that is not symbolic, exploring or not, that returns a text,
-- with or without an error, has filed spans under the template's name that start at 0, each where
-- the one before it ended, and end at the length of the text.
pub execute_tiles :
    (h : Host) (fuel : ℕ) (t : Template) (v : Value) (w : World) (r : Recorder) (text : Text)
    (err : Option Text)
    → w.trace.rec ≡ some r
    → r.depth ≡ 0
    → r.symbolic ≡ false
    → (execute h fuel t v w).0 ≡ ok (text, err)
    → FilesTiles t.name text (execute h fuel t v w).1
unfolding execute Call.execute execute_with
execute_tiles h fuel t v w r text err e d c ended =
    let l = tiling_logic h in
    let u = tiling-Uniform h in
    let inside : is_symbolic (enter t v w).trace ≡ false =
      unfold enter is_symbolic in ground arith in
    let kept =
      tiling_logic-Walks h _ _ _
        (walks_run_template h l u (calls h fuel) (calls h fuel) (calls-related h l u fuel) t v)
        (enter t v w) inside in
    let x = Call.run_template h (calls h fuel) t v (enter t v w) in
    let recs : is_some (enter t v w).trace.rec ≡ true = unfold enter in ground arith in
    subst (λ b. FilesTiles t.name b (leave t w x.1)) (result_text x.1.out text err x.0 ended)
      (left-FilesTiles t w x.1 (kept.tiled (entered-IsTiled t v w))
        (kept.counts ∙ entered-counts t v w r e d) (kept.rec ∙ recs))
