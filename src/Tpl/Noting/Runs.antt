-- ===== src/Tpl/Noting/Runs.antt =====
-- Properties of the recorder that every recording hook keeps hold after every execution,
-- tools/helmprov/tpl/prov.go: executions,
-- template calls and the executor as a whole.
use cartograph_nvim.Base.{ℕ, Text, Option, Option-cases, inl, inr}
use mathlib.Core.Path.{subst}
use cartograph_nvim.Tpl.Value.{Value}
use cartograph_nvim.Tpl.Host.{Host, Template}
use cartograph_nvim.Tpl.Record.{Recorder}
use cartograph_nvim.Tpl.World.{World, M, pure, raise, inner, update}
use cartograph_nvim.Tpl.State.{leave_popping, popping, catch_break, catch_continue}
use cartograph_nvim.Tpl.Prov.{symbolic, exploring}
use cartograph_nvim.Tpl.Brackets.{
  execute_with, enter, leave, leave_recorder, invoke_with, enter_invoked,
}
use cartograph_nvim.Tpl.Call.{safe_call}
use cartograph_nvim.Tpl.Run.{execute}
use cartograph_nvim.Tpl.Logic.{Logic, Uniform, execute-related}
use cartograph_nvim.Tpl.Noting.{RecorderLaws, On, Noted}
use cartograph_nvim.Tpl.Noting.Hooks.{
  Noted-bind, Noted-read, Noted-dot, Noted-arm, Noted-text, Noted-action,
}
use cartograph_nvim.Tpl.Noting.Arms.{Noted-explore, Noted-guard}

module _ (P : Recorder → Type 0) (l : RecorderLaws P) where
  On-enter :
      (t : Template) (v : Value) (w : World) → On P w.trace.rec → On P (enter t v w).trace.rec
  unfolding enter
  On-enter t v w i = elim (Option-cases w.trace.rec) [
    | inl c ↦ rw c tt
    | inr (r, c) ↦ rw c (l.depth r _ (subst (λ o. On P o) c i))
  ]

  leave_recorder_lem : (name : Text) (w : World) (r : Recorder) → P r → P (leave_recorder name w r)
  unfolding leave_recorder
  leave_recorder_lem name w r i = elim (Option-cases w.trace.count) [
    | inl c ↦ rw c (l.depth r _ i)
    | inr (n, c) ↦ rw c (l.files _ _ (l.depth r _ i))
  ]

  On-leave : (t : Template) (w w' : World) → On P w'.trace.rec → On P (leave t w w').trace.rec
  unfolding leave
  On-leave t w w' i = elim (Option-cases w'.trace.rec) [
    | inl c ↦ rw c tt
    | inr (r, c) ↦ rw c (leave_recorder_lem t.name w' r (subst (λ o. On P o) c i))
  ]

  Noted-execute :
      (t : Template) (v : Value) (m m' : M (Unit {0}))
      → Noted P (Unit {0}) m m'
      → Noted P (Text × Option Text) (execute_with t v m) (execute_with t v m')
  unfolding execute_with
  Noted-execute t v m m' p w i =
      On-leave t w (m (enter t v w)).1 (p (enter t v w) (On-enter t v w i))

  Noted-invoke :
      (t : Template) (v : Value) (m m' : M (Unit {0}))
      → Noted P (Unit {0}) m m'
      → Noted P (Unit {0}) (invoke_with t v m) (invoke_with t v m')
  unfolding invoke_with
  Noted-invoke t v m m' p w i = p (enter_invoked t v w) i

  noting_logic : (h : Host) → Logic h
  unfolding pure raise inner update symbolic exploring safe_call popping leave_popping catch_break
      catch_continue
  noting_logic h = record {
    Evals = Noted P;
    Walks = Noted P;
    walks = λ A m m' p. p;
    evals_pure = λ A a w i. i;
    evals_raise = λ A p go w i. i;
    evals_bind = Noted-bind P l;
    walks_bind = Noted-bind P l;
    evals_inner = λ w i. i;
    evals_update = λ f mild w i. i;
    evals_symbolic = λ w i. i;
    evals_exploring = λ w i. i;
    evals_read = Noted-read P l h;
    evals_dot = Noted-dot P l h;
    evals_arm = Noted-arm P l h;
    evals_safe = λ m m' p. p;
    walks_text = Noted-text P l h;
    walks_action = Noted-action P l h;
    walks_explore = Noted-explore P l h;
    walks_guard = Noted-guard P l h;
    walks_popping = λ A m m' p. p;
    walks_break = λ m m' p. p;
    walks_continue = λ m m' p. p;
  }

  noting-Uniform : (h : Host) → Uniform h (noting_logic h)
  unfolding noting_logic raise update
  noting-Uniform h = record {
    evals_out_of_fuel = λ A w i. i;
    evals_count = λ f w i. i;
    evals_execute = Noted-execute;
    walks_invoke = Noted-invoke;
  }

  -- What all hooks keep holds after an execution, however it ends.
  pub execute_keeps :
      (h : Host) (fuel : ℕ) (t : Template) (v : Value) (w : World)
      → On P w.trace.rec
      → On P (execute h fuel t v w).1.trace.rec
  unfolding noting_logic
  execute_keeps h fuel t v w = execute-related h (noting_logic h) (noting-Uniform h) fuel t v w
