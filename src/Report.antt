-- ===== src/Report.antt =====
-- The document that the program prints, main of tools/helmprov/cmd/helmprov/main.go: its renders and
-- what of their recorders it takes. The templates of each render are parameters.
pub mod Tiles
pub mod Slices
pub mod Reads
use cartograph_nvim.Engine.Prepare.{Engine, engine_render}
use cartograph_nvim.Base.{
  ℕ, Text, Bool, true, false, Option, none, some, List, [], ◌∷◌, ◌++◌, if◌then◌else◌,
}
use cartograph_nvim.Tpl.Host.{Host}
use cartograph_nvim.Tpl.Record.{Recorder, Span, Read, Arm, Explored, Dot, new_recorder, find_file}
use cartograph_nvim.Tpl.World.{World, Result, ok, panics}
use cartograph_nvim.Tpl.Value.{Entries}
use cartograph_nvim.Engine.Collect.{Charter, all_templates}
use cartograph_nvim.Engine.Render.{Renderable, Rendering, done, error, render}

-- fileOut
pub record FileOut : Type 0 where
  pub content : Text
  pub spans : List Span

pub record Report : Type 0 where
  pub files : List (Text × FileOut)
  pub reads : List Read
  pub arms : List Arm
  pub explored : List Explored
  pub dots : List (Text × Dot)

unfoldable pub first_recorder : Bool → Bool → Recorder
unfolding new_recorder
first_recorder symbolic dots = record new_recorder {
  dots_on = dots;
  symbolic = symbolic;
  branches = symbolic;
}

unfoldable pub explored_recorder : Recorder
unfolding new_recorder
explored_recorder = record new_recorder { branches = true }

abbrev pub under : Recorder → World → World
under r w = record w { trace = record w.trace { rec = some r } }

-- The texts of a render and its recorder; none where the program prints an error and ends.
unfoldable pub rendering_of : Result Rendering × World → Option (List (Text × Text) × Recorder)
rendering_of (ok (done texts), w) = elim w.trace.rec [ none ↦ none | some r ↦ some (texts, r) ]
rendering_of (ok (error name e), w) = none
rendering_of (panics p, w) = none

unfoldable pub untaken_reads : List Read → List Read
untaken_reads [] = []
untaken_reads (r ∷ rs) = let rest = untaken_reads rs in if r.untaken then r ∷ rest else rest

unfoldable pub spans_of : Option (List Span) → List Span
spans_of none = []
spans_of (some spans) = spans

-- the last loop
unfoldable pub file_outs : Recorder → List (Text × Text) → List (Text × FileOut)
unfolding find_file spans_of
file_outs first [] = []
file_outs first ((name, text) ∷ texts) =
    (name, record { content = text; spans = spans_of (find_file name first.files) })
    ∷ file_outs first texts

-- What is taken of the first render.
abbrev pub taken_report : List (Text × Text) → Recorder → Report
taken_report texts first = record {
  files = file_outs first texts;
  reads = first.reads;
  arms = [];
  explored = [];
  dots = first.dots;
}

module _ (g : Engine) (h : Host) (fuel : ℕ) (tpls explored_tpls : List (Text × Renderable))
    (w : World) where
  unfoldable pub branch_report : Report → Option Report
  unfolding explored_recorder rendering_of untaken_reads engine_render
  branch_report res =
      elim (rendering_of (engine_render g h fuel explored_tpls (under explored_recorder w))) [
        | none ↦ none
        | some (texts, second) ↦ some (record res {
          reads = res.reads ++ untaken_reads second.reads;
          arms = second.arms;
          explored = second.explored;
        })
      ]

  unfoldable pub first_report : Bool → Bool → List (Text × Text) → Recorder → Option Report
  unfolding branch_report file_outs
  first_report symbolic branches texts first =
      let res = taken_report texts first in
      let more = branch_report res in
      if symbolic
      then some (record res { arms = first.arms; explored = first.explored })
      else if branches
      then more
      else some res

  unfoldable pub report : Bool → Bool → Bool → Option Report
  unfolding first_recorder rendering_of first_report engine_render
  report symbolic branches dots =
      elim (rendering_of (engine_render g h fuel tpls (under (first_recorder symbolic dots) w))) [
        | none ↦ none
        | some (texts, first) ↦ first_report symbolic branches texts first
      ]

-- The document of a chart: its templates are collected for each render, with the values of that
-- render; `explored_vals` are those of the second one.
unfoldable pub chart_report :
    Engine
    → Host
    → ℕ
    → (Entries → Text → Option Entries)
    → Charter
    → Entries
    → Entries
    → World
    → Bool
    → Bool
    → Bool
    → Option Report
unfolding report all_templates
chart_report g h fuel table c vals explored_vals w symbolic branches dots =
    report g h fuel (all_templates table symbolic c vals)
      (all_templates table false c explored_vals) w symbolic branches dots
