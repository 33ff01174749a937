-- ===== src/Tests/Rendering.antt =====
-- The rendering of the sample chart, and the theorems on rendering at it.
use cartograph_nvim.Base.{
  codes, text_eq, ◌≡◌, refl, some, none, is_some, List, [], ◌∷◌, Text, false, true, has_prefix,
  index, last_index, replace_all_empty,
}
use mathlib.Core.List.{Perm, Permᴰ}
use cartograph_nvim.Tests.Sample.{
  show_plain, host, sample_engine, main_template, chart_values, start,
}
use cartograph_nvim.Tpl.Value.{Value, map_of, interface, str, bool, Entries, end, entry}
use cartograph_nvim.Tpl.Record
use cartograph_nvim.Tpl.Record.{Recorder, find_file}
use cartograph_nvim.Tpl.World.{Result, ok}
use cartograph_nvim.Tpl.World
use cartograph_nvim.Tpl.Run.{execute}
use cartograph_nvim.Tpl.Filing.{filed, execute_keeps_files}
use cartograph_nvim.Tpl.Finish
use cartograph_nvim.Tpl.Brackets
use cartograph_nvim.Tpl.Call
use cartograph_nvim.Tpl.Calls
use cartograph_nvim.Tpl.Eval
use cartograph_nvim.Tpl.Host
use cartograph_nvim.Tpl.Prov
use cartograph_nvim.Tpl.Run
use cartograph_nvim.Tpl.State
use cartograph_nvim.Tpl.Value
use cartograph_nvim.Tpl.Walk
use cartograph_nvim.Engine.Order.{IsDescending, sort_templates, sort_templates-IsDescending}
use cartograph_nvim.Engine.Order
use cartograph_nvim.Engine.Render.{Renderable, render, done}
use cartograph_nvim.Engine.Render
use cartograph_nvim.Engine.Prepare
use cartograph_nvim.Engine.Prepare.{engine_render}
use cartograph_nvim.Engine.Unordered.{engine_render_unordered}
use cartograph_nvim.Engine.Messages
use cartograph_nvim.Engine.Complete.{names_of, full_names, render_names}
use cartograph_nvim.Tpl.State.{error_text}
use cartograph_nvim.Report
use cartograph_nvim.Report.{report}
use cartograph_nvim.Tpl.Noting.{On}
use cartograph_nvim.Tpl.Noting.Bounds.{IsBounded, execute-IsBounded}
use cartograph_nvim.Report.Reads.{Adds, report-Adds}
use cartograph_nvim.Report.Tiles.{FilesTile, report_tiles}
use cartograph_nvim.Tpl.Tiling.{some_of}
use cartograph_nvim.Engine.Rendered.{AllTile, render_tiles}

execute_keeps_files_example :
    filed
      (codes "other")
      (execute host 30 main_template chart_values (start (some Record.new_recorder))).1.trace.rec
    ≡ find_file (codes "other") Record.new_recorder.files
unfolding Record.new_recorder codes text_eq
execute_keeps_files_example =
    execute_keeps_files host 30 main_template chart_values (start (some Record.new_recorder))
      Record.new_recorder (codes "other") refl refl refl

abbrev names : List Text
names = codes "b" ∷ codes "a/c" ∷ codes "a" ∷ []

sort_templates-IsDescending_example :
    IsDescending (sort_templates names) × Perm (sort_templates names) names
sort_templates-IsDescending_example = sort_templates-IsDescending names

abbrev chart_entries : Entries
chart_entries =
    entry (codes "Values")
      (map_of (
        entry (codes "a") (interface (str (codes "val")))
          (entry (codes "b") (interface (bool false)) end)))
      end

abbrev sheet : Renderable
sheet = record { tpl = []; vals = chart_entries; base_path = codes "templates" }

abbrev sheets : List (Text × Renderable)
sheets = (codes "_help", record sheet { tpl = codes "help" }) ∷ (codes "main", sheet) ∷ []

rendered_sheets :
    (render host 30 sheets (start (some Record.new_recorder))).0
    ≡ ok (done ((codes "main", codes "x=valE[val]") ∷ []))
unfolding codes text_eq has_prefix index last_index replace_all_empty show_plain Brackets.walk_text
    Brackets.walk_action Brackets.execute_with Brackets.explore_with Brackets.sym_guard
    Call.safe_call Call.eval_call Calls.check_type Calls.validate_type Calls.eval_string
    Eval.eval_field_chain Eval.eval_field_node Eval.eval_function Eval.eval_pipeline Eval.eval_arg
    Host.lookup_template Host.lookup_key Prov.record_with Prov.is_symbolic Prov.symbolic
    Prov.record_read Prov.record_dot Prov.arm Record.new_recorder Run.step Run.calls Run.execute
    State.at State.popping Value.sym_of Walk.walk World.pure World.◌>>=◌ World.inner World.update
    Order.text_lt Order.slashes Order.by_path_len Order.insert_name Order.sort_templates
    Render.set_entry Render.trim_slashes Render.base Render.is_partial Render.template_vals
    Render.finish_text Render.finish_outcome Render.render_file Render.render_rest
    Render.render_keys Render.template_names Render.render Finish.finish Finish.no_value
rendered_sheets = refl

render_tiles_example :
    AllTile
      ((codes "main", codes "x=valE[val]") ∷ [])
      (render host 30 sheets (start (some Record.new_recorder))).1
unfolding Record.new_recorder Render.template_names codes text_eq
render_tiles_example =
    render_tiles host 30 sheets (start (some Record.new_recorder)) Record.new_recorder
      ((codes "main", codes "x=valE[val]") ∷ []) refl refl refl ((refl, tt), (tt, tt))
      rendered_sheets

render_names_example :
    names_of ((codes "main", codes "x=valE[val]") ∷ [])
    ≡ full_names (sort_templates (Render.template_names sheets))
render_names_example =
    render_names host 30 sheets (start (some Record.new_recorder))
      ((codes "main", codes "x=valE[val]") ∷ []) rendered_sheets

-- The document of the sample chart, with the arms that the values did not take.
reported : is_some (report sample_engine host 30 sheets sheets (start none) false true true) ≡ true
unfolding codes text_eq has_prefix index last_index replace_all_empty show_plain Brackets.walk_text
    Brackets.walk_action Brackets.execute_with Brackets.explore_with Brackets.sym_guard
    Call.safe_call Call.eval_call Calls.check_type Calls.validate_type Calls.eval_string
    Eval.eval_field_chain Eval.eval_field_node Eval.eval_function Eval.eval_pipeline Eval.eval_arg
    Host.lookup_template Host.lookup_key Prov.record_with Prov.is_symbolic Prov.symbolic
    Prov.record_read Prov.record_dot Prov.arm Record.new_recorder Run.step Run.calls Run.execute
    State.at State.popping Value.sym_of Walk.walk World.pure World.◌>>=◌ World.inner World.update
    Order.text_lt Order.slashes Order.by_path_len Order.insert_name Order.sort_templates
    Render.set_entry Render.trim_slashes Render.base Render.is_partial Render.template_vals
    Render.finish_text Render.finish_outcome Render.render_file Render.render_rest
    Render.render_keys Render.template_names Render.render Finish.finish Finish.no_value
    Report.first_recorder Report.rendering_of Report.spans_of Report.file_outs Report.first_report
    Report.report Prepare.init_fun_map Prepare.new_group Prepare.parse_keys Prepare.render_loaded
    Prepare.engine_render Host.set_key Host.set_all Messages.call_required Messages.call_fail
reported = refl

report_tiles_example :
    FilesTile
      (some_of
        (report sample_engine host 30 sheets sheets (start none) false true true)
        reported).0.files
unfolding Render.template_names codes text_eq
report_tiles_example =
    report_tiles sample_engine host 30 sheets sheets (start none) true true
      (some_of (report sample_engine host 30 sheets sheets (start none) false true true) reported).0
      ((refl, tt), (tt, tt))
      (some_of (report sample_engine host 30 sheets sheets (start none) false true true) reported).1

new_recorder-IsBounded : IsBounded Record.new_recorder
unfolding Record.new_recorder
new_recorder-IsBounded = record { dots = tt; reads = tt }

execute-IsBounded_example :
    On IsBounded
      (execute host 30 main_template chart_values (start (some Record.new_recorder))).1.trace.rec
execute-IsBounded_example =
    execute-IsBounded host 30 main_template chart_values (start (some Record.new_recorder))
      new_recorder-IsBounded

report-Adds_example :
    (plain : Report.Report) × (report sample_engine host 30 sheets sheets
        (start none)
        false
        false
        true
      ≡ some plain)
    × Adds plain
        (some_of
          (report sample_engine host 30 sheets sheets (start none) false true true)
          reported).0
report-Adds_example =
    report-Adds sample_engine host 30 sheets sheets (start none) true
      (some_of (report sample_engine host 30 sheets sheets (start none) false true true) reported).0
      (some_of (report sample_engine host 30 sheets sheets (start none) false true true) reported).1

engine_render_unordered_example :
    engine_render sample_engine host 30 sheets (start (some Record.new_recorder))
    ≡ engine_render sample_engine host 30
        ((codes "main", sheet) ∷ (codes "_help", record sheet { tpl = codes "help" }) ∷ [])
        (start (some Record.new_recorder))
unfolding Render.template_names codes text_eq
engine_render_unordered_example =
    engine_render_unordered sample_engine host 30 sheets
      ((codes "main", sheet) ∷ (codes "_help", record sheet { tpl = codes "help" }) ∷ [])
      (start (some Record.new_recorder)) ((refl, tt), (tt, tt)) (Permᴰ.swap refl refl)
