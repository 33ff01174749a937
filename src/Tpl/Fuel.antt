-- ===== src/Tpl/Fuel.antt =====
-- More fuel does not change a render that ended.
use cartograph_nvim.Base.{
  ℕ, zero, suc, ◌≤◌, Text, Bool, true, false, ◌≡◌, ◌≢◌, refl, sym, ap, ◌⊎◌, inl, inr, none, some,
  Option, arith, Bool-cases, if◌then◌else◌, ◌&&◌, length,
}
use cartograph_nvim.Tpl.Syntax.{Node, Pipe}
use cartograph_nvim.Tpl.Value.{Value}
use cartograph_nvim.Tpl.Host.{Host, Template, Answer}
use cartograph_nvim.Tpl.Record.{Recorder}
use cartograph_nvim.Tpl.World.{World, out_of_fuel, Result, ok, panics, M, continue, raise, ◌>>=◌}
use cartograph_nvim.Tpl.State.{
  leave_popping, stop_break, stop_continue, popping, catch_break, catch_continue,
}
use cartograph_nvim.Tpl.Prov.{is_symbolic}
use cartograph_nvim.Tpl.Brackets.{
  recover_error, leave_invoked, enter_invoked, close_action, open_action, walk_action, execute_with,
  invoke_with, explore_maybe, explore_under, finish_arm, explore_with, sym_guard, guard_error,
  explores, enter_arm, enter, leave, unguarded,
}
use cartograph_nvim.Tpl.Call.{safe, safe_call}
use mathlib.Core.Path.{subst}
use cartograph_nvim.Tpl.Run.{calls, execute}
use cartograph_nvim.Tpl.Logic.{Logic, Uniform, AllRelated, step-all, evals_execute_template}

-- The second computation does what the first does, unless that ran out of fuel.
abbrev Below : (A : Type 0) → M A → M A → Type 0
Below A m m' = (w : World) → ((m w).0 ≡ panics out_of_fuel) ⊎ (m w ≡ m' w)

module _ {A B : Type 0} (f : Result A × World → Result B × World) where
  -- What is done around a computation, if it does not stop an end of fuel.
  around :
      (x y : Result A × World)
      → ((w : World) → (f (panics out_of_fuel, w)).0 ≡ panics out_of_fuel)
      → (x.0 ≡ panics out_of_fuel) ⊎ (x ≡ y)
      → ((f x).0 ≡ panics out_of_fuel) ⊎ (f x ≡ f y)
  around x y h (inl e) = inl (subst (λ r. (f (r, x.1)).0 ≡ panics out_of_fuel) (sym e) (h x.1))
  around x y h (inr e) = inr (ap f e)

continue-Below :
    {A B : Type 0} (f f' : A → M B) (x : Result A × World)
    → ((a : A) → Below B (f a) (f' a))
    → ((continue f x.0 x.1).0 ≡ panics out_of_fuel) ⊎ (continue f x.0 x.1 ≡ continue f' x.0 x.1)
continue-Below f f' (ok a, w) q = q a w
continue-Below f f' (panics p, w) q = inr refl

Below-bind :
    (A B : Type 0) (m m' : M A) (f f' : A → M B)
    → Below A m m'
    → ((a : A) → Below B (f a) (f' a))
    → Below B (m >>= f) (m' >>= f')
unfolding ◌>>=◌
Below-bind A B m m' f f' p q w = elim (p w) [
  | inl e ↦ inl (rw e)
  | inr e ↦
      subst
        (λ y.
          ((continue f (m w).0 (m w).1).0 ≡ panics out_of_fuel)
          ⊎ (continue f (m w).0 (m w).1 ≡ continue f' y.0 y.1))
        e (continue-Below f f' (m w) q)
]

Below-safe : (m m' : M Answer) → Below Answer m m' → Below Answer (safe_call m) (safe_call m')
unfolding safe_call
Below-safe m m' p w = around (λ x. (safe x.0, x.1)) (m w) (m' w) (λ _. refl) (p w)

Below-execute :
    (t : Template) (v : Value) (m m' : M (Unit {0}))
    → Below (Unit {0}) m m'
    → Below (Text × Option Text) (execute_with t v m) (execute_with t v m')
unfolding execute_with
Below-execute t v m m' p w =
    around (λ x. (recover_error x.1.out x.0, leave t w x.1)) (m (enter t v w)) (m' (enter t v w))
      (λ _. refl) (p (enter t v w))

Below-popping : (A : Type 0) (m m' : M A) → Below A m m' → Below A (popping m) (popping m')
unfolding popping
Below-popping A m m' p w =
    around (leave_popping (length w.inner.vars)) (m w) (m' w) (λ _. refl) (p w)

Below-break :
    (m m' : M (Unit {0}))
    → Below (Unit {0}) m m'
    → Below (Unit {0}) (catch_break m) (catch_break m')
unfolding catch_break
Below-break m m' p w = around (λ x. (stop_break x.0, x.1)) (m w) (m' w) (λ _. refl) (p w)

Below-continue :
    (m m' : M (Unit {0}))
    → Below (Unit {0}) m m'
    → Below (Unit {0}) (catch_continue m) (catch_continue m')
unfolding catch_continue
Below-continue m m' p w = around (λ x. (stop_continue x.0, x.1)) (m w) (m' w) (λ _. refl) (p w)

Below-invoke :
    (t : Template) (v : Value) (m m' : M (Unit {0}))
    → Below (Unit {0}) m m'
    → Below (Unit {0}) (invoke_with t v m) (invoke_with t v m')
unfolding invoke_with
Below-invoke t v m m' p w = around (leave_invoked w) _ _ (λ _. refl) (p (enter_invoked t v w))

Below-action :
    (h : Host) (n : Node) (m m' : M Text)
    → Below Text m m'
    → Below (Unit {0}) (walk_action h n m) (walk_action h n m')
unfolding walk_action
Below-action h n m m' p w = around (close_action h n w) _ _ (λ _. refl) (p (open_action h n w))

Below-if :
    {A : Type 0} (b : Bool) (x x' y : Result A × World)
    → (x.0 ≡ panics out_of_fuel) ⊎ (x ≡ x')
    → ((if b then x else y).0 ≡ panics out_of_fuel) ⊎ ((if b then x else y) ≡ (if b then x' else y))
Below-if true x x' y p = p
Below-if false x x' y p = inr refl

Below-maybe :
    (h : Host) (guard : Text) (o : Option Recorder) (m m' : M (Unit {0}))
    → Below (Unit {0}) m m'
    → Below (Unit {0}) (explore_maybe h guard o m) (explore_maybe h guard o m')
unfolding explore_maybe explore_under finish_arm
Below-maybe h guard none m m' p w = inr refl
Below-maybe h guard (some r) m m' p w =
    Below-if (explores guard r) _ _ _
      (around (finish_arm h guard w) _ _ (λ _. refl) (p (enter_arm guard r w)))

Below-explore :
    (h : Host) (n : Node) (kind : Text) (pipe : Pipe) (which : Text) (m m' : M (Unit {0}))
    → Below (Unit {0}) m m'
    → Below (Unit {0}) (explore_with h n kind pipe which m) (explore_with h n kind pipe which m')
unfolding explore_with
Below-explore h n kind pipe which m m' p w = Below-maybe h _ w.trace.rec m m' p w

Below-guard :
    (h : Host) (n : Node) (m m' : M (Unit {0}))
    → Below (Unit {0}) m m'
    → Below (Unit {0}) (sym_guard h n m) (sym_guard h n m')
unfolding sym_guard guard_error
Below-guard h n m m' p w = elim (Bool-cases (is_symbolic w.trace && unguarded w.trace)) [
  | inl e ↦ rw e (around (guard_error h n) _ _ (λ _. refl) (p w))
  | inr e ↦ rw e (p w)
]

fuel_logic : (h : Host) → Logic h
fuel_logic h = record {
  Evals = Below;
  Walks = Below;
  walks = λ A m m' p. p;
  evals_pure = λ A a w. inr refl;
  evals_raise = λ A p go w. inr refl;
  evals_bind = Below-bind;
  walks_bind = Below-bind;
  evals_inner = λ w. inr refl;
  evals_update = λ f mild w. inr refl;
  evals_symbolic = λ w. inr refl;
  evals_exploring = λ w. inr refl;
  evals_read = λ n path w. inr refl;
  evals_dot = λ n v w. inr refl;
  evals_arm = λ n kind pipe taken b value w. inr refl;
  evals_safe = Below-safe;
  walks_text = λ n text w. inr refl;
  walks_action = Below-action h;
  walks_explore = Below-explore h;
  walks_guard = Below-guard h;
  walks_popping = Below-popping;
  walks_break = Below-break;
  walks_continue = Below-continue;
}

fuel-Uniform : (h : Host) → Uniform h (fuel_logic h)
unfolding fuel_logic raise
fuel-Uniform h = record {
  evals_out_of_fuel = λ A w. inr refl;
  evals_count = λ f w. inr refl;
  evals_execute = Below-execute;
  walks_invoke = Below-invoke;
}

calls-Below : (h : Host) (f g : ℕ) → f ≤ g → AllRelated h (fuel_logic h) (calls h f) (calls h g)
unfolding calls fuel_logic raise
calls-Below h zero g p = λ d. record {
  walk = λ v n s w. inl refl;
  eval_pipeline = λ v q s w. inl refl;
  eval_arg = λ v t n s w. inl refl;
}
calls-Below h (suc f) zero p = absurd (omega arith)
calls-Below h (suc f) (suc g) p =
    step-all h (fuel_logic h) (fuel-Uniform h) _ _ (calls-Below h f g (omega arith))

-- A render that does not run out of its fuel returns, with any greater fuel, the same result in the
-- same state: the text, the error, the variables and everything that is recorded.
pub execute_mono :
    (h : Host) (f g : ℕ) (t : Template) (v : Value) (w : World)
    → f ≤ g
    → (execute h f t v w).0 ≢ panics out_of_fuel
    → execute h g t v w ≡ execute h f t v w
unfolding execute fuel_logic
execute_mono h f g t v w p ended =
    elim (evals_execute_template h (fuel_logic h) (fuel-Uniform h) _ _ (calls-Below h f g p) t v
      w) [ inl e ↦ absurd (ended e) | inr e ↦ sym e ]
