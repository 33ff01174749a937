-- ===== src/Tpl/Logic/Jumps.antt =====
-- Where the depth of calls does not matter, the calls of templates keep the logic too; and so does
-- every level of the executor.
use cartograph_nvim.Base.{ℕ, zero, suc, ◌-◌, Text, Option, List, arith}
use cartograph_nvim.Tpl.Syntax.{Node, OptPipe}
use cartograph_nvim.Tpl.Value.{Value}
use cartograph_nvim.Tpl.Host.{Host, Template, Answer, set_key}
use cartograph_nvim.Tpl.Calls.{Calls}
use cartograph_nvim.Tpl.Call.{
  run_template, execute, execute_named, tpl_fun, include_fun, set_included, leave_include,
  included_count,
}
use cartograph_nvim.Tpl.Walk.{invoke, walk_template}
use cartograph_nvim.Tpl.Run
use cartograph_nvim.Tpl.Run.{calls, step}
use cartograph_nvim.Tpl.Logic.Defs.{Logic, Uniform, CallsRelated, JumpsRelated}
use cartograph_nvim.Tpl.Logic.Size.{node_size, opt_pipe_size}
use cartograph_nvim.Tpl.Logic.Rules.{walks_of_evals, walks_option, eval_rules, walk_rules}
use cartograph_nvim.Tpl.Logic.Walk.{step-related}

-- The calls are related below trees of every size.
abbrev pub AllRelated : (h : Host) (l : Logic h) (c c' : Calls) → Type 0
AllRelated h l c c' = (d : ℕ) → CallsRelated h l d c c'

module _ (h : Host) (l : Logic h) (u : Uniform h l) (c c' : Calls) (all : AllRelated h l c c') where
  open l use {Evals, Walks}

  walk_any : (v : Value) (n : Node) → Walks (Unit {0}) (c.walk v n) (c'.walk v n)
  walk_any v n = (all (node_size n)).walk v n (omega arith)

  pipeline_any :
      (v : Value) (p : OptPipe) → Evals Value (c.eval_pipeline v p) (c'.eval_pipeline v p)
  pipeline_any v p = (all (opt_pipe_size p)).eval_pipeline v p (omega arith)

  evals_set :
      (name : Text) (n : ℕ) → Evals (Unit {0}) (set_included h c name n) (set_included h c' name n)
  unfolding set_included
  evals_set name n = u.evals_count (λ m. set_key name n m)

  evals_leave : (name : Text) → Evals (Unit {0}) (leave_include h c name) (leave_include h c' name)
  unfolding leave_include
  evals_leave name = u.evals_count (λ m. set_key name (included_count name m - 1) m)

  pub walks_run_template :
      (t : Template) (v : Value) → Walks (Unit {0}) (run_template h c t v) (run_template h c' t v)
  unfolding run_template
  walks_run_template t v = search (walks_option, walks_of_evals, eval_rules, walk_any)

  pub evals_execute_template :
      (t : Template) (v : Value) → Evals (Text × Option Text) (execute h c t v) (execute h c' t v)
  unfolding execute
  evals_execute_template t v = u.evals_execute t v _ _ (walks_run_template t v)

  evals_execute_named :
      (name : Text) (v : Value)
      → Evals Answer (execute_named h c name v) (execute_named h c' name v)
  unfolding execute_named
  evals_execute_named name v = search (eval_rules, evals_execute_template)

  evals_include :
      (name : Text) (v : Value) → Evals Answer (include_fun h c name v) (include_fun h c' name v)
  unfolding include_fun
  evals_include name v = search (eval_rules, evals_set, evals_leave, evals_execute_named) depth 8

  evals_tpl : (argv : List Value) → Evals Answer (tpl_fun h argv) (tpl_fun h argv)
  unfolding tpl_fun
  evals_tpl argv = search (eval_rules, u.evals_out_of_fuel)

  walks_invoke_template :
      (dot : Value) (t : Template) (pipe : OptPipe)
      → Walks (Unit {0}) (invoke h c dot t pipe) (invoke h c' dot t pipe)
  unfolding invoke
  walks_invoke_template dot t pipe =
      search (walk_rules, walks_of_evals, eval_rules, pipeline_any, walk_any, u.walks_invoke) depth
        7

  walks_template :
      (n : Node) (dot : Value) (name : Text) (pipe : OptPipe)
      → Walks (Unit {0}) (walk_template h c n dot name pipe) (walk_template h c' n dot name pipe)
  unfolding walk_template
  walks_template n dot name pipe =
      search (walk_rules, walks_of_evals, eval_rules, walks_invoke_template) depth 9

  pub jumps-related : (d : ℕ) → JumpsRelated h l d c c'
  jumps-related d = record {
    include = evals_include;
    tpl = evals_tpl;
    template = λ n dot name pipe s. walks_template n dot name pipe;
  }

module _ (h : Host) (l : Logic h) (u : Uniform h l) where
  related_lower : (d : ℕ) (c c' : Calls) → CallsRelated h l (suc d) c c' → CallsRelated h l d c c'
  related_lower d c c' rel = record {
    walk = λ v n s. rel.walk v n (omega arith);
    eval_pipeline = λ v p s. rel.eval_pipeline v p (omega arith);
    eval_arg = λ v t n s. rel.eval_arg v t n (omega arith);
  }

  pub step-all : (c c' : Calls) → AllRelated h l c c' → AllRelated h l (step h c) (step h c')
  step-all c c' all d =
      related_lower d _ _ (step-related h l d c c' (all d) (jumps-related h l u c c' all d))

  out_of_fuel-related : AllRelated h l (calls h zero) (calls h zero)
  unfolding calls
  out_of_fuel-related d = record {
    walk = λ v n s. walks_of_evals h l _ _ _ (u.evals_out_of_fuel _);
    eval_pipeline = λ v p s. u.evals_out_of_fuel _;
    eval_arg = λ v t n s. u.evals_out_of_fuel _;
  }

  pub calls-related : (fuel : ℕ) → AllRelated h l (calls h fuel) (calls h fuel)
  unfolding calls
  calls-related zero = out_of_fuel-related
  calls-related (suc fuel) = step-all _ _ (calls-related fuel)

  pub execute-related :
      (fuel : ℕ) (t : Template) (v : Value)
      → l.Evals (Text × Option Text) (Run.execute h fuel t v) (Run.execute h fuel t v)
  unfolding Run.execute
  execute-related fuel t v = evals_execute_template h l u _ _ (calls-related fuel) t v
