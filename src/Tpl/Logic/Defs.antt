-- ===== src/Tpl/Logic/Defs.antt =====
-- The laws of the logic, one for each step, and the relation between two tables of calls.
use cartograph_nvim.Base.{ℕ, ◌≤◌, ◌≡◌, ◌≢◌, Text, Bool, Option, List}
use cartograph_nvim.Tpl.Syntax.{Node, Pipe, OptPipe}
use cartograph_nvim.Tpl.Value.{Typ, Value}
use cartograph_nvim.Tpl.Host.{Host, Template, Answer}
use cartograph_nvim.Tpl.World.{Inner, Panic, out_of_fuel, M, pure, raise, ◌>>=◌, inner, update}
use cartograph_nvim.Tpl.State.{popping, catch_break, catch_continue}
use cartograph_nvim.Tpl.Prov.{symbolic, exploring, record_read, record_dot, arm}
use cartograph_nvim.Tpl.Brackets.{
  walk_text, walk_action, execute_with, invoke_with, explore_with, sym_guard,
}
use cartograph_nvim.Tpl.Calls.{Calls}
use cartograph_nvim.Tpl.Call.{safe_call, tpl_fun, include_fun}
use cartograph_nvim.Tpl.Walk.{walk_template}
use cartograph_nvim.Tpl.Logic.Size.{node_size, opt_pipe_size}

-- A change of the state that leaves the templates, the depth and the running includes alone.
abbrev pub IsMild : (Inner → Inner) → Type 0
IsMild f =
    (s : Inner) → ((f s).group ≡ s.group) × ((f s).depth ≡ s.depth) × ((f s).included ≡ s.included)

pub record Logic (h : Host) : Type 1 where
  pub Evals : (A : Type 0) → M A → M A → Type 0
  pub Walks : (A : Type 0) → M A → M A → Type 0
  pub walks : (A : Type 0) (m m' : M A) → Evals A m m' → Walks A m m'
  pub evals_pure : (A : Type 0) (a : A) → Evals A (pure a) (pure a)
  pub evals_raise : (A : Type 0) (p : Panic) → p ≢ out_of_fuel → Evals A (raise p) (raise p)
  pub evals_bind :
      (A B : Type 0) (m m' : M A) (f f' : A → M B)
      → Evals A m m'
      → ((a : A) → Evals B (f a) (f' a))
      → Evals B (m >>= f) (m' >>= f')
  pub walks_bind :
      (A B : Type 0) (m m' : M A) (f f' : A → M B)
      → Walks A m m'
      → ((a : A) → Walks B (f a) (f' a))
      → Walks B (m >>= f) (m' >>= f')
  pub evals_inner : Evals Inner inner inner
  pub evals_update : (f : Inner → Inner) → IsMild f → Evals (Unit {0}) (update f) (update f)
  pub evals_symbolic : Evals Bool symbolic symbolic
  pub evals_exploring : Evals Bool exploring exploring
  pub evals_read :
      (n : Node) (path : List Text) → Evals (Unit {0}) (record_read h n path) (record_read h n path)
  pub evals_dot : (n : Node) (v : Value) → Evals (Unit {0}) (record_dot h n v) (record_dot h n v)
  pub evals_arm :
      (n : Node) (kind : Text) (pipe : Pipe) (taken : Text) (b : Bool) (value : Text)
      → Evals (Unit {0}) (arm h n kind pipe taken b value) (arm h n kind pipe taken b value)
  pub evals_safe : (m m' : M Answer) → Evals Answer m m' → Evals Answer (safe_call m) (safe_call m')
  pub walks_text :
      (n : Node) (text : Text) → Walks (Unit {0}) (walk_text h n text) (walk_text h n text)
  pub walks_action :
      (n : Node) (m m' : M Text)
      → Evals Text m m'
      → Walks (Unit {0}) (walk_action h n m) (walk_action h n m')
  pub walks_explore :
      (n : Node) (kind : Text) (pipe : Pipe) (which : Text) (m m' : M (Unit {0}))
      → Walks (Unit {0}) m m'
      → Walks (Unit {0}) (explore_with h n kind pipe which m) (explore_with h n kind pipe which m')
  pub walks_guard :
      (n : Node) (m m' : M (Unit {0}))
      → Walks (Unit {0}) m m'
      → Walks (Unit {0}) (sym_guard h n m) (sym_guard h n m')
  pub walks_popping : (A : Type 0) (m m' : M A) → Walks A m m' → Walks A (popping m) (popping m')
  pub walks_break :
      (m m' : M (Unit {0}))
      → Walks (Unit {0}) m m'
      → Walks (Unit {0}) (catch_break m) (catch_break m')
  pub walks_continue :
      (m m' : M (Unit {0}))
      → Walks (Unit {0}) m m'
      → Walks (Unit {0}) (catch_continue m) (catch_continue m')

-- The laws of what leads from one template to another, for a logic that does not bound the depth of
-- calls.
pub record Uniform (h : Host) (l : Logic h) : Type 1 where
  pub evals_out_of_fuel : (A : Type 0) → l.Evals A (raise out_of_fuel) (raise out_of_fuel)
  pub evals_count :
      (f : List (Text × ℕ) → List (Text × ℕ))
      → l.Evals
          (Unit {0})
          (update (λ s. record s { included = f s.included }))
          (update (λ s. record s { included = f s.included }))
  pub evals_execute :
      (t : Template) (v : Value) (m m' : M (Unit {0}))
      → l.Walks (Unit {0}) m m'
      → l.Evals (Text × Option Text) (execute_with t v m) (execute_with t v m')
  pub walks_invoke :
      (t : Template) (v : Value) (m m' : M (Unit {0}))
      → l.Walks (Unit {0}) m m'
      → l.Walks (Unit {0}) (invoke_with t v m) (invoke_with t v m')

-- The calls of the executor on itself, below trees of a size at most `d`.
pub record CallsRelated (h : Host) (l : Logic h) (d : ℕ) (c c' : Calls) : Type 0 where
  pub walk :
      (v : Value) (n : Node) → node_size n ≤ d → l.Walks (Unit {0}) (c.walk v n) (c'.walk v n)
  pub eval_pipeline :
      (v : Value) (p : OptPipe)
      → opt_pipe_size p ≤ d
      → l.Evals Value (c.eval_pipeline v p) (c'.eval_pipeline v p)
  pub eval_arg :
      (v : Value) (t : Option Typ) (n : Node)
      → node_size n ≤ d
      → l.Evals Value (c.eval_arg v t n) (c'.eval_arg v t n)

-- The calls of templates by their names.
pub record JumpsRelated (h : Host) (l : Logic h) (d : ℕ) (c c' : Calls) : Type 0 where
  pub include :
      (name : Text) (v : Value) → l.Evals Answer (include_fun h c name v) (include_fun h c' name v)
  pub tpl : (argv : List Value) → l.Evals Answer (tpl_fun h argv) (tpl_fun h argv)
  pub template :
      (n : Node) (dot : Value) (name : Text) (pipe : OptPipe)
      → opt_pipe_size pipe ≤ d
      → l.Walks (Unit {0}) (walk_template h c n dot name pipe) (walk_template h c' n dot name pipe)
