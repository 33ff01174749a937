-- ===== src/Tpl/Logic/Rules.antt =====
-- The rules by which `search` proves that a step keeps the logic: the laws themselves, and one for
-- each way to branch.
use cartograph_nvim.Base.{ℕ, refl, Text, Bool, true, false, if◌then◌else◌, none, some, Option, List}
use cartograph_nvim.Tpl.Syntax.{Node, Pipe}
use cartograph_nvim.Tpl.Value.{Value}
use cartograph_nvim.Tpl.Host.{Host, Answer}
use cartograph_nvim.Tpl.World.{
  Inner, exec_error, runtime_error, walk_break, walk_continue, M, on_option, pure, raise, ◌>>=◌,
  inner, update,
}
use cartograph_nvim.Tpl.State.{
  errorf, at, push, set_var, var_value, set_top_var, popping, catch_break, catch_continue,
}
use cartograph_nvim.Tpl.Prov.{symbolic, exploring, record_read, record_dot, arm}
use cartograph_nvim.Tpl.Brackets.{walk_text, walk_action, explore_with, sym_guard}
use cartograph_nvim.Tpl.Call.{safe_call}
use cartograph_nvim.Tpl.Logic.Defs.{Logic, IsMild}

module _ (h : Host) (l : Logic h) where
  open l use {Evals, Walks}

  pub walks_of_evals : (A : Type 0) (m m' : M A) → Evals A m m' → Walks A m m'
  walks_of_evals A m m' p = l.walks A m m' p

  pub evals_pure : (A : Type 0) (a : A) → Evals A (pure a) (pure a)
  evals_pure A a = l.evals_pure A a

  pub evals_exec_error :
      (A : Type 0) (name e : Text) → Evals A (raise (exec_error name e)) (raise (exec_error name e))
  evals_exec_error A name e = l.evals_raise A (exec_error name e) (λ p. cc p)

  pub evals_runtime_error :
      (A : Type 0) (e : Text) → Evals A (raise (runtime_error e)) (raise (runtime_error e))
  evals_runtime_error A e = l.evals_raise A (runtime_error e) (λ p. cc p)

  pub evals_walk_break : (A : Type 0) → Evals A (raise walk_break) (raise walk_break)
  evals_walk_break A = l.evals_raise A walk_break (λ p. cc p)

  pub evals_walk_continue : (A : Type 0) → Evals A (raise walk_continue) (raise walk_continue)
  evals_walk_continue A = l.evals_raise A walk_continue (λ p. cc p)

  pub evals_bind :
      (A B : Type 0) (m m' : M A) (f f' : A → M B)
      → Evals A m m'
      → ((a : A) → Evals B (f a) (f' a))
      → Evals B (m >>= f) (m' >>= f')
  evals_bind A B m m' f f' p q = l.evals_bind A B m m' f f' p q

  pub walks_bind :
      (A B : Type 0) (m m' : M A) (f f' : A → M B)
      → Walks A m m'
      → ((a : A) → Walks B (f a) (f' a))
      → Walks B (m >>= f) (m' >>= f')
  walks_bind A B m m' f f' p q = l.walks_bind A B m m' f f' p q

  pub evals_inner : Evals Inner inner inner
  evals_inner = l.evals_inner

  pub evals_update : (f : Inner → Inner) → IsMild f → Evals (Unit {0}) (update f) (update f)
  evals_update f p = l.evals_update f p

  pub evals_symbolic : Evals Bool symbolic symbolic
  evals_symbolic = l.evals_symbolic

  pub evals_exploring : Evals Bool exploring exploring
  evals_exploring = l.evals_exploring

  pub evals_read :
      (n : Node) (path : List Text) → Evals (Unit {0}) (record_read h n path) (record_read h n path)
  evals_read n path = l.evals_read n path

  pub evals_dot : (n : Node) (v : Value) → Evals (Unit {0}) (record_dot h n v) (record_dot h n v)
  evals_dot n v = l.evals_dot n v

  pub evals_arm :
      (n : Node) (kind : Text) (pipe : Pipe) (taken : Text) (b : Bool) (value : Text)
      → Evals (Unit {0}) (arm h n kind pipe taken b value) (arm h n kind pipe taken b value)
  evals_arm n kind pipe taken b value = l.evals_arm n kind pipe taken b value

  pub evals_safe : (m m' : M Answer) → Evals Answer m m' → Evals Answer (safe_call m) (safe_call m')
  evals_safe m m' p = l.evals_safe m m' p

  pub walks_text :
      (n : Node) (text : Text) → Walks (Unit {0}) (walk_text h n text) (walk_text h n text)
  walks_text n text = l.walks_text n text

  pub walks_action :
      (n : Node) (m m' : M Text)
      → Evals Text m m'
      → Walks (Unit {0}) (walk_action h n m) (walk_action h n m')
  walks_action n m m' p = l.walks_action n m m' p

  pub walks_explore :
      (n : Node) (kind : Text) (pipe : Pipe) (which : Text) (m m' : M (Unit {0}))
      → Walks (Unit {0}) m m'
      → Walks (Unit {0}) (explore_with h n kind pipe which m) (explore_with h n kind pipe which m')
  walks_explore n kind pipe which m m' p = l.walks_explore n kind pipe which m m' p

  pub walks_guard :
      (n : Node) (m m' : M (Unit {0}))
      → Walks (Unit {0}) m m'
      → Walks (Unit {0}) (sym_guard h n m) (sym_guard h n m')
  walks_guard n m m' p = l.walks_guard n m m' p

  pub walks_popping : (A : Type 0) (m m' : M A) → Walks A m m' → Walks A (popping m) (popping m')
  walks_popping A m m' p = l.walks_popping A m m' p

  pub walks_break :
      (m m' : M (Unit {0}))
      → Walks (Unit {0}) m m'
      → Walks (Unit {0}) (catch_break m) (catch_break m')
  walks_break m m' p = l.walks_break m m' p

  pub walks_continue :
      (m m' : M (Unit {0}))
      → Walks (Unit {0}) m m'
      → Walks (Unit {0}) (catch_continue m) (catch_continue m')
  walks_continue m m' p = l.walks_continue m m' p

  pub evals_if :
      (A : Type 0) (b : Bool) (m m' n n' : M A)
      → Evals A m m'
      → Evals A n n'
      → Evals A (if b then m else n) (if b then m' else n')
  evals_if A true m m' n n' p q = p
  evals_if A false m m' n n' p q = q

  pub evals_errorf : (A : Type 0) (msg : Text) → Evals A (errorf h msg) (errorf h msg)
  unfolding errorf
  evals_errorf A msg = search (evals_bind, evals_inner, evals_exec_error)

  pub evals_option :
      (A B : Type 0) (o : Option A) (m m' : M B) (f f' : A → M B)
      → Evals B m m'
      → ((a : A) → Evals B (f a) (f' a))
      → Evals B (on_option o m f) (on_option o m' f')
  evals_option A B none m m' f f' p q = p
  evals_option A B (some a) m m' f f' p q = q a

  pub evals_at : (n : Node) → Evals (Unit {0}) (at n) (at n)
  unfolding at
  evals_at n = evals_update _ (λ s. (refl, refl, refl))

  pub evals_push : (x : Text) (v : Value) → Evals (Unit {0}) (push x v) (push x v)
  unfolding push
  evals_push x v = evals_update _ (λ s. (refl, refl, refl))

  pub evals_set_var : (x : Text) (v : Value) → Evals (Unit {0}) (set_var h x v) (set_var h x v)
  unfolding set_var
  evals_set_var x v = search (evals_bind, evals_inner, evals_option, evals_errorf, evals_update)

  pub evals_set_top_var : (n : ℕ) (v : Value) → Evals (Unit {0}) (set_top_var n v) (set_top_var n v)
  unfolding set_top_var
  evals_set_top_var n v =
      search (evals_bind, evals_inner, evals_option, evals_runtime_error, evals_update)

  pub evals_var_value : (x : Text) → Evals Value (var_value h x) (var_value h x)
  unfolding var_value
  evals_var_value x = search (evals_bind, evals_inner, evals_option, evals_errorf, evals_pure)

  pub walks_if :
      (A : Type 0) (b : Bool) (m m' n n' : M A)
      → Walks A m m'
      → Walks A n n'
      → Walks A (if b then m else n) (if b then m' else n')
  walks_if A true m m' n n' p q = p
  walks_if A false m m' n n' p q = q

  pub walks_option :
      (A B : Type 0) (o : Option A) (m m' : M B) (f f' : A → M B)
      → Walks B m m'
      → ((a : A) → Walks B (f a) (f' a))
      → Walks B (on_option o m f) (on_option o m' f')
  walks_option A B none m m' f f' p q = p
  walks_option A B (some a) m m' f f' p q = q a

pub ruleset eval_rules = (
  evals_if, evals_option, evals_pure, evals_exec_error, evals_runtime_error, evals_walk_break,
  evals_walk_continue, evals_bind, evals_inner, evals_update, evals_symbolic, evals_exploring,
  evals_errorf, evals_at, evals_push, evals_set_var, evals_set_top_var, evals_var_value, evals_read,
  evals_dot, evals_arm,
)

pub ruleset walk_rules = (
  walks_if, walks_option, walks_bind, walks_text, walks_action, walks_explore, walks_guard,
  walks_popping, walks_break, walks_continue,
)
