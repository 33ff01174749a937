-- ===== src/Tests/Charts.antt =====
-- The rendering and the document of a sample chart, and the theorems on them.
use cartograph_nvim.Base.{
  codes, text_eq, ◌≡◌, refl, some, none, is_some, Option, [], ◌∷◌, Text, false, true, has_prefix,
  index, last_index, replace_all_empty,
}
use cartograph_nvim.Tests.Sample.{show_plain, host, sample_engine, start}
use cartograph_nvim.Tpl.Value
use cartograph_nvim.Tpl.Value.{
  Value, map_of, interface, str, bool, nil_interface, Entries, end, entry,
}
use cartograph_nvim.Tpl.Host
use cartograph_nvim.Tpl.Host.{Template}
use cartograph_nvim.Tpl.Record
use cartograph_nvim.Tpl.Record.{Recorder}
use cartograph_nvim.Tpl.World
use cartograph_nvim.Tpl.World.{World, Result, ok, panics, inner}
use cartograph_nvim.Tpl.Finish
use cartograph_nvim.Tpl.Brackets
use cartograph_nvim.Tpl.Call
use cartograph_nvim.Tpl.Calls
use cartograph_nvim.Tpl.Eval
use cartograph_nvim.Tpl.Prov
use cartograph_nvim.Tpl.Run
use cartograph_nvim.Tpl.State
use cartograph_nvim.Tpl.Walk
use cartograph_nvim.Tpl.Tiling.{some_of}
use cartograph_nvim.Engine.Order
use cartograph_nvim.Engine.Paths
use cartograph_nvim.Engine.Render
use cartograph_nvim.Engine.Render.{done}
use cartograph_nvim.Engine.Rendered.{AllTile}
use cartograph_nvim.Engine.Collect
use cartograph_nvim.Engine.Prepare
use cartograph_nvim.Engine.Messages
use cartograph_nvim.Engine.Collect.{
  Info, Charter, charter, Charters, no_charters, dependency, all_templates, render_with_context,
}
use cartograph_nvim.Engine.Collected.{chart_tiles}
use cartograph_nvim.Engine.Placed
use cartograph_nvim.Engine.Symbolic.{AllPlaceholders, all_templates-AllPlaceholders}
use cartograph_nvim.Report
use cartograph_nvim.Report.{chart_report}
use cartograph_nvim.Report.Slices.{AllWhole, chart_report-AllWhole}

-- A library chart, whose templates that are no partials do not count, below an application.
abbrev library : Info
library = record {
  name = codes "lib";
  full_path = codes "app/charts/lib";
  is_root = false;
  is_library = true;
  metadata = end;
  files = nil_interface;
  templates =
      some (codes "templates/_h.tpl", codes "help") ∷ some (codes "templates/x.yaml", []) ∷ [];
}

abbrev application : Info
application = record {
  name = codes "app";
  full_path = codes "app";
  is_root = true;
  is_library = false;
  metadata = end;
  files = nil_interface;
  templates = none ∷ some (codes "templates/a.yaml", []) ∷ [];
}

abbrev app : Charter
app = charter application (dependency (charter library no_charters) no_charters)

abbrev app_values : Entries
app_values =
    entry (codes "Values")
      (interface (
        map_of (
          entry (codes "a") (interface (str (codes "val")))
            (entry (codes "b") (interface (bool false)) end))))
      end

-- The table of a path in the values is not there.
abbrev no_table : Entries → Text → Option Entries
no_table es path = none

rendered_chart :
    (render_with_context no_table false sample_engine host 30 app app_values
      (start (some Record.new_recorder))).0
    ≡ ok (done ((codes "app/templates/a.yaml", codes "x=valE[val]") ∷ []))
unfolding codes text_eq has_prefix index last_index replace_all_empty show_plain Brackets.walk_text
    Brackets.walk_action Brackets.execute_with Brackets.explore_with Brackets.sym_guard
    Call.safe_call Call.eval_call Calls.check_type Calls.validate_type Calls.eval_string
    Eval.eval_field_chain Eval.eval_field_node Eval.eval_function Eval.eval_pipeline Eval.eval_arg
    Host.lookup_template Host.lookup_key Prov.record_with Prov.is_symbolic Prov.symbolic
    Prov.record_read Prov.record_dot Prov.arm Record.new_recorder Run.step Run.calls Run.execute
    State.at State.popping Value.sym_of Walk.walk World.pure World.◌>>=◌ inner World.update
    Order.text_lt Order.slashes Order.by_path_len Order.insert_name Order.sort_templates
    Render.set_entry Render.trim_slashes Render.base Render.is_partial Render.template_vals
    Render.finish_text Render.finish_outcome Render.render_file Render.render_rest
    Render.render_keys Render.template_names Render.render Finish.finish Finish.no_value
    Report.first_recorder Report.rendering_of Report.spans_of Report.file_outs Report.first_report
    Report.report Paths.split_slash Paths.back Paths.clean_elements Paths.onto Paths.clean
    Paths.path_join Collect.info_of Collect.entry_of Collect.is_template_valid Collect.scoped_values
    Collect.next_values Collect.add_templates Collect.rec_all_tpls Collect.all_templates
    Collect.render_with_context Value.map_index Prepare.init_fun_map Prepare.new_group
    Prepare.parse_keys Prepare.render_loaded Prepare.engine_render Host.set_key Host.set_all
    Messages.call_required Messages.call_fail
rendered_chart = refl

chart_tiles_example :
    AllTile
      ((codes "app/templates/a.yaml", codes "x=valE[val]") ∷ [])
      (render_with_context no_table false sample_engine host 30 app app_values
        (start (some Record.new_recorder))).1
unfolding Record.new_recorder
chart_tiles_example =
    chart_tiles sample_engine host 30 no_table false app app_values
      (start (some Record.new_recorder)) Record.new_recorder
      ((codes "app/templates/a.yaml", codes "x=valE[val]") ∷ []) refl refl refl rendered_chart

reported_chart :
    is_some (
      chart_report sample_engine host 30 no_table app app_values app_values
        (start none)
        false
        true
        true)
    ≡ true
unfolding codes text_eq has_prefix index last_index replace_all_empty show_plain Brackets.walk_text
    Brackets.walk_action Brackets.execute_with Brackets.explore_with Brackets.sym_guard
    Call.safe_call Call.eval_call Calls.check_type Calls.validate_type Calls.eval_string
    Eval.eval_field_chain Eval.eval_field_node Eval.eval_function Eval.eval_pipeline Eval.eval_arg
    Host.lookup_template Host.lookup_key Prov.record_with Prov.is_symbolic Prov.symbolic
    Prov.record_read Prov.record_dot Prov.arm Record.new_recorder Run.step Run.calls Run.execute
    State.at State.popping Value.sym_of Walk.walk World.pure World.◌>>=◌ inner World.update
    Order.text_lt Order.slashes Order.by_path_len Order.insert_name Order.sort_templates
    Render.set_entry Render.trim_slashes Render.base Render.is_partial Render.template_vals
    Render.finish_text Render.finish_outcome Render.render_file Render.render_rest
    Render.render_keys Render.template_names Render.render Finish.finish Finish.no_value
    Report.first_recorder Report.rendering_of Report.spans_of Report.file_outs Report.first_report
    Report.report Paths.split_slash Paths.back Paths.clean_elements Paths.onto Paths.clean
    Paths.path_join Collect.info_of Collect.entry_of Collect.is_template_valid Collect.scoped_values
    Collect.next_values Collect.add_templates Collect.rec_all_tpls Collect.all_templates
    Value.map_index Report.chart_report Prepare.init_fun_map Prepare.new_group Prepare.parse_keys
    Prepare.render_loaded Prepare.engine_render Host.set_key Host.set_all Messages.call_required
    Messages.call_fail
reported_chart = refl

chart_report-AllWhole_example :
    AllWhole
      (some_of
        (chart_report sample_engine host 30 no_table app app_values app_values
          (start none)
          false
          true
          true)
        reported_chart).0.files
chart_report-AllWhole_example =
    chart_report-AllWhole sample_engine host 30 no_table app app_values app_values (start none) true
      true
      (some_of
        (chart_report sample_engine host 30 no_table app app_values app_values (start none) false
          true true)
        reported_chart).0
      (some_of
        (chart_report sample_engine host 30 no_table app app_values app_values (start none) false
          true true)
        reported_chart).1

all_templates-AllPlaceholders_example : AllPlaceholders (all_templates no_table true app app_values)
all_templates-AllPlaceholders_example = all_templates-AllPlaceholders no_table app app_values
