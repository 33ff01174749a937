-- ===== src/Tests/Renders.antt =====
-- Renders of the sample chart, and the theorems on the executor at them.
use cartograph_nvim.Base.{Bool, true, false, codes, some, none, ◌≡◌, ◌≢◌, refl}
use cartograph_nvim.Tests.Sample.{show_plain, host, main_template, chart_values, start, values_pipe}
use cartograph_nvim.Tpl.Record
use cartograph_nvim.Tpl.Record.{Recorder}
use cartograph_nvim.Tpl.World.{Result, ok, panics, out_of_fuel, inner, M, raise, ◌>>=◌, walk_break}
use cartograph_nvim.Tpl.Tiling.{FilesTiles, execute_tiles}
use cartograph_nvim.Tpl.Silent.{IsPlain, erase, execute_silent}
use cartograph_nvim.Tpl.Syntax.{text_node, dot_node}
use cartograph_nvim.Tpl.Balance.{frame_in, execute_balanced}
use cartograph_nvim.Tpl.Explore.{IsContained, Untouched, explore-Untouched}
use cartograph_nvim.Tpl.Brackets.{walk_text, explore_with}
use cartograph_nvim.Tpl.Brackets
use cartograph_nvim.Tpl.Call
use cartograph_nvim.Tpl.Calls
use cartograph_nvim.Tpl.Eval
use cartograph_nvim.Tpl.Host
use cartograph_nvim.Tpl.Host.{Host}
use cartograph_nvim.Tpl.Typed.{Fits, validate_type-Fits}
use cartograph_nvim.Tpl.Value.{Typ, t_string, interface, str}
use cartograph_nvim.Tpl.Prov
use cartograph_nvim.Tpl.Run
use cartograph_nvim.Tpl.Run.{execute}
use cartograph_nvim.Tpl.State
use cartograph_nvim.Tpl.Value
use cartograph_nvim.Tpl.Walk
use cartograph_nvim.Tpl.World

-- The text of the chart: the text, the action, the untaken arm's alternative and the include.
rendered :
    (execute host 30 main_template chart_values (start (some Record.new_recorder))).0
    ≡ ok (codes "x=valE[val]", none)
unfolding show_plain Brackets.walk_text Brackets.walk_action Brackets.execute_with
    Brackets.explore_with Brackets.sym_guard Call.safe_call Call.eval_call Calls.check_type
    Calls.validate_type Calls.eval_string Eval.eval_field_chain Eval.eval_field_node
    Eval.eval_function Eval.eval_pipeline Eval.eval_arg Host.lookup_template Host.lookup_key
    Prov.record_with Prov.is_symbolic Prov.symbolic Prov.record_read Prov.record_dot Prov.arm
    Record.new_recorder Run.step Run.calls Run.execute State.at State.popping Value.sym_of Walk.walk
    World.pure World.◌>>=◌ inner World.update
rendered = refl

execute_tiles_example :
    FilesTiles
      (codes "main")
      (codes "x=valE[val]")
      (execute host 30 main_template chart_values (start (some Record.new_recorder))).1
unfolding Record.new_recorder
execute_tiles_example =
    execute_tiles host 30 main_template chart_values (start (some Record.new_recorder))
      Record.new_recorder (codes "x=valE[val]") none refl refl refl rendered

sample-IsPlain : IsPlain (start (some Record.new_recorder))
unfolding Record.new_recorder Prov.is_exploring Prov.is_symbolic
sample-IsPlain = (refl, refl)

execute_silent_example :
    ((execute host 30 main_template chart_values (start none)).0
      ≡ (execute host 30 main_template chart_values (start (some Record.new_recorder))).0)
    × ((execute host 30 main_template chart_values (start none)).1
        ≡ erase (execute host 30 main_template chart_values (start (some Record.new_recorder))).1)
execute_silent_example =
    execute_silent host 30 main_template chart_values (start (some Record.new_recorder))
      sample-IsPlain

sample_ends :
    (execute host 30 main_template chart_values (start (some Record.new_recorder))).0
    ≢ panics out_of_fuel
sample_ends e = cc (rendered, e)

-- A recorder that explores untaken arms.
abbrev exploring_recorder : Recorder
exploring_recorder = record Record.new_recorder { branches = true }

execute_balanced_example :
    frame_in (execute host 30 main_template chart_values (start (some exploring_recorder))).1
    ≡ frame_in (start (some exploring_recorder))
execute_balanced_example =
    execute_balanced host 30 main_template chart_values (start (some exploring_recorder))

-- An arm that writes a text and then breaks.
abbrev breaking_arm : M (Unit {0})
breaking_arm = walk_text host (text_node 7 (codes "T")) (codes "T") >>= λ _. raise walk_break

explore-Untouched_example :
    IsContained
      (explore_with host
        (dot_node 4)
        (codes "if")
        (values_pipe 5 "b")
        (codes "then")
        breaking_arm
        (start (some exploring_recorder))).0
    × Untouched
        (start (some exploring_recorder))
        (explore_with host
          (dot_node 4)
          (codes "if")
          (values_pipe 5 "b")
          (codes "then")
          breaking_arm
          (start (some exploring_recorder))).1
explore-Untouched_example =
    explore-Untouched host (dot_node 4) (codes "if") (values_pipe 5 "b") (codes "then") breaking_arm
      (start (some exploring_recorder))

abbrev is_string : Typ → Bool
is_string t_string = true
is_string _ = false

-- A host where texts only may be assigned, to texts.
abbrev strict : Host
strict = record host { assignable = λ t u. is_string t }

validate_type-Fits_example : Fits strict t_string (str (codes "x"))
unfolding Calls.validate_type Calls.check_type Calls.convert Prov.symbolic World.pure World.◌>>=◌
    Value.type_of Value.is_valid Calls.is_value_type Value.sym_of Prov.is_symbolic
validate_type-Fits_example =
    validate_type-Fits strict (interface (str (codes "x"))) t_string (start none) (str (codes "x"))
      refl
