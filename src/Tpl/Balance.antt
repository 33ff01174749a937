-- ===== src/Tpl/Balance.antt =====
-- Every step of a render gives the recorder back with its settings, its depth and its guards.
pub mod Frame
use cartograph_nvim.Base.{
  ℕ, Text, Bool, true, false, ◌≡◌, refl, sym, ap, ◌∙◌, none, some, Option, Bool-cases, inl, inr,
  List, length, if◌then◌else◌, ◌&&◌, arith,
}
use cartograph_nvim.Tpl.Syntax.{Node, Pipe}
use cartograph_nvim.Tpl.Value.{Value}
use cartograph_nvim.Tpl.Host.{Host, Template, Answer}
use cartograph_nvim.Tpl.Record.{Recorder}
use cartograph_nvim.Tpl.World.{
  World, Result, ok, panics, M, continue, pure, raise, ◌>>=◌, inner, update,
}
use cartograph_nvim.Tpl.State.{leave_popping, popping, catch_break, catch_continue}
use cartograph_nvim.Tpl.Prov.{is_symbolic, symbolic, exploring, record_dot, arm}
use cartograph_nvim.Tpl.Brackets.{
  walk_action, open_action, execute_with, enter, leave, invoke_with, enter_invoked, explore_with,
  explore_maybe, explore_under, finish_arm, enter_arm, explores, guard_text, sym_guard, unguarded,
}
use cartograph_nvim.Tpl.Call.{safe_call}
use cartograph_nvim.Tpl.Run.{execute}
use cartograph_nvim.Tpl.Logic.{Logic, Uniform, execute-related}
pub use Frame.{frame_in}
use Frame.{
  frame, frame_of, frame-leave, frame-leave_arm, frame-close_action, frame-open_action,
  frame-walk_text, frame-record_read, frame-record_with, frame-guard_error,
}

-- The computation gives the frame back, whatever it returns.
abbrev Balanced : (A : Type 0) → M A → M A → Type 0
Balanced A m m' = (w : World) → frame_in (m w).1 ≡ frame_in w

continue-frame :
    {A B : Type 0} (f : A → M B) (x : Result A × World)
    → ((a : A) → Balanced B (f a) (f a))
    → frame_in (continue f x.0 x.1).1 ≡ frame_in x.1
continue-frame f (ok a, w) p = p a w
continue-frame f (panics e, w) p = refl

Balanced-bind :
    (A B : Type 0) (m m' : M A) (f f' : A → M B)
    → Balanced A m m'
    → ((a : A) → Balanced B (f a) (f' a))
    → Balanced B (m >>= f) (m' >>= f')
unfolding ◌>>=◌
Balanced-bind A B m m' f f' p q w = continue-frame f (m w) q ∙ p w

Balanced-action :
    (h : Host) (n : Node) (m m' : M Text)
    → Balanced Text m m'
    → Balanced (Unit {0}) (walk_action h n m) (walk_action h n m')
unfolding walk_action
Balanced-action h n m m' p w =
    frame-close_action h n w (m (open_action h n w))
    ∙ (p (open_action h n w) ∙ frame-open_action h n w)

Balanced-execute :
    (t : Template) (v : Value) (m m' : M (Unit {0}))
    → Balanced (Unit {0}) m m'
    → Balanced (Text × Option Text) (execute_with t v m) (execute_with t v m')
unfolding execute_with
Balanced-execute t v m m' p w = frame-leave t v w (m (enter t v w)).1 (p (enter t v w))

Balanced-invoke :
    (t : Template) (v : Value) (m m' : M (Unit {0}))
    → Balanced (Unit {0}) m m'
    → Balanced (Unit {0}) (invoke_with t v m) (invoke_with t v m')
unfolding invoke_with
Balanced-invoke t v m m' p w = p (enter_invoked t v w)

frame-maybe :
    (h : Host) (guard : Text) (o : Option Recorder) (m : M (Unit {0})) (w : World)
    → Balanced (Unit {0}) m m
    → w.trace.rec ≡ o
    → frame_in (explore_maybe h guard o m w).1 ≡ frame_in w
unfolding explore_maybe
frame-maybe h guard none m w p e = refl
frame-maybe h guard (some r) m w p e = elim (Bool-cases (explores guard r)) [
  | inl c ↦
      let x = m (enter_arm guard r w) in
      rw (explore_under, c)
        (frame-leave_arm h guard r x.0 w x.1 (p (enter_arm guard r w)) ∙ ap frame (sym e))
  | inr c ↦ rw (explore_under, c) refl
]

Balanced-explore :
    (h : Host) (n : Node) (kind : Text) (pipe : Pipe) (which : Text) (m m' : M (Unit {0}))
    → Balanced (Unit {0}) m m'
    → Balanced (Unit {0}) (explore_with h n kind pipe which m) (explore_with h n kind pipe which m')
unfolding explore_with
Balanced-explore h n kind pipe which m m' p w =
    frame-maybe h (guard_text h w.inner n kind pipe which) w.trace.rec m w p refl

Balanced-guard :
    (h : Host) (n : Node) (m m' : M (Unit {0}))
    → Balanced (Unit {0}) m m'
    → Balanced (Unit {0}) (sym_guard h n m) (sym_guard h n m')
unfolding sym_guard
Balanced-guard h n m m' p w = elim (Bool-cases (is_symbolic w.trace && unguarded w.trace)) [
  | inl e ↦ rw e (frame-guard_error h n (m w) ∙ p w)
  | inr e ↦ rw e (p w)
]

Balanced-dot :
    (h : Host) (n : Node) (v : Value) → Balanced (Unit {0}) (record_dot h n v) (record_dot h n v)
unfolding record_dot
Balanced-dot h n v w = frame-record_with _ w (λ r. ground arith)

Balanced-arm :
    (h : Host) (n : Node) (kind : Text) (pipe : Pipe) (taken : Text) (b : Bool) (value : Text)
    → Balanced (Unit {0}) (arm h n kind pipe taken b value) (arm h n kind pipe taken b value)
unfolding arm
Balanced-arm h n kind pipe taken b value w = frame-record_with _ w (λ r. ground arith)

balance_logic : (h : Host) → Logic h
unfolding pure raise inner update symbolic exploring safe_call popping leave_popping catch_break
    catch_continue
balance_logic h = record {
  Evals = Balanced;
  Walks = Balanced;
  walks = λ A m m' p. p;
  evals_pure = λ A a w. refl;
  evals_raise = λ A p go w. refl;
  evals_bind = Balanced-bind;
  walks_bind = Balanced-bind;
  evals_inner = λ w. refl;
  evals_update = λ f mild w. refl;
  evals_symbolic = λ w. refl;
  evals_exploring = λ w. refl;
  evals_read = frame-record_read h;
  evals_dot = Balanced-dot h;
  evals_arm = Balanced-arm h;
  evals_safe = λ m m' p. p;
  walks_text = frame-walk_text h;
  walks_action = Balanced-action h;
  walks_explore = Balanced-explore h;
  walks_guard = Balanced-guard h;
  walks_popping = λ A m m' p. p;
  walks_break = λ m m' p. p;
  walks_continue = λ m m' p. p;
}

balance-Uniform : (h : Host) → Uniform h (balance_logic h)
unfolding balance_logic raise update
balance-Uniform h = record {
  evals_out_of_fuel = λ A w. refl;
  evals_count = λ f w. refl;
  evals_execute = Balanced-execute;
  walks_invoke = Balanced-invoke;
}

-- A render, however it ends, and also if it panics in an untaken arm or deep inside includes, leaves
-- a recorder if and only if it was given one, and leaves it with the same guards, the same depth and
-- the same settings.
pub execute_balanced :
    (h : Host) (fuel : ℕ) (t : Template) (v : Value) (w : World)
    → frame_in (execute h fuel t v w).1 ≡ frame_in w
unfolding balance_logic
execute_balanced h fuel t v w = execute-related h (balance_logic h) (balance-Uniform h) fuel t v w
