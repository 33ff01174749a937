-- ===== src/Tpl/Silent.antt =====
-- Recording is silent: a render under a recorder that neither explores nor is symbolic computes what
-- a render with no recorder does.
use cartograph_nvim.Base.{
  ℕ, Text, Bool, false, ◌≡◌, refl, sym, ap, ◌∙◌, none, some, Option, List, [], ◌∷◌, arith, length,
}
use cartograph_nvim.Tpl.Syntax.{Node, Pipe}
use cartograph_nvim.Tpl.Value.{Value}
use cartograph_nvim.Tpl.Host.{Host, Template, Answer}
use cartograph_nvim.Tpl.Record.{Recorder}
use cartograph_nvim.Tpl.World.{
  Trace, World, Result, ok, panics, M, continue, pure, raise, ◌>>=◌, inner, update,
}
use cartograph_nvim.Tpl.State.{
  leave_popping, popping, stop_break, stop_continue, catch_break, catch_continue,
}
use cartograph_nvim.Tpl.Prov.{
  is_symbolic, is_exploring, symbolic, exploring, record_read, record_with, record_dot, arm,
}
use cartograph_nvim.Tpl.Brackets
use cartograph_nvim.Tpl.Call.{safe, safe_call}
use cartograph_nvim.Tpl.Run.{execute}
use cartograph_nvim.Tpl.Logic.{Logic, Uniform, execute-related}

-- The world with no recorder.
abbrev pub no_trace : Trace
no_trace = record { count = none; spans = []; cur = none; rec = none }

abbrev pub erase : World → World
erase w = record w { trace = no_trace }

-- A recorder, if there is one, that neither explores nor is symbolic.
abbrev pub IsPlain : World → Type 0
IsPlain w = (is_exploring w.trace ≡ false) × (is_symbolic w.trace ≡ false)

abbrev erased : {A : Type 0} → Result A × World → Result A × World
erased (r, w) = (r, erase w)

abbrev Quiet : {A : Type 0} → Result A × World → Result A × World → Type 0
Quiet x y = (y ≡ erased x) × IsPlain x.1

abbrev Silent : (A : Type 0) → M A → M A → Type 0
Silent A m m' = (w : World) → IsPlain w → Quiet (m w) (m' (erase w))

continue-Quiet :
    {A B : Type 0} (f f' : A → M B) (x : Result A × World)
    → ((a : A) → Silent B (f a) (f' a))
    → IsPlain x.1
    → Quiet (continue f x.0 x.1) (continue f' x.0 (erase x.1))
continue-Quiet f f' (ok a, w) q p = q a w p
continue-Quiet f f' (panics e, w) q p = (refl, p)

Silent-bind :
    (A B : Type 0) (m m' : M A) (f f' : A → M B)
    → Silent A m m'
    → ((a : A) → Silent B (f a) (f' a))
    → Silent B (m >>= f) (m' >>= f')
unfolding ◌>>=◌
Silent-bind A B m m' f f' p q w plain =
    let (e, next) = p w plain in
    let (e', end) = continue-Quiet f f' (m w) q next in (ap (λ y. continue f' y.0 y.1) e ∙ e', end)

-- What is done around a computation, on either side.
around :
    {A B : Type 0} (f f' : Result A × World → Result B × World) (x y : Result A × World)
    → Quiet x y
    → f' (erased x) ≡ erased (f x)
    → (IsPlain x.1 → IsPlain (f x).1)
    → Quiet (f x) (f' y)
around f f' x y (e, p) k l = (ap f' e ∙ k, l p)

Silent-safe : (m m' : M Answer) → Silent Answer m m' → Silent Answer (safe_call m) (safe_call m')
unfolding safe_call
Silent-safe m m' p w plain =
    around (λ x. (safe x.0, x.1)) (λ x. (safe x.0, x.1)) (m w) _ (p w plain) refl (λ q. q)

Silent-popping : (A : Type 0) (m m' : M A) → Silent A m m' → Silent A (popping m) (popping m')
unfolding popping leave_popping
Silent-popping A m m' p w plain =
    let f = leave_popping (length w.inner.vars) in around f f (m w) _ (p w plain) refl (λ q. q)

Silent-break :
    (m m' : M (Unit {0}))
    → Silent (Unit {0}) m m'
    → Silent (Unit {0}) (catch_break m) (catch_break m')
unfolding catch_break
Silent-break m m' p w plain =
    around (λ x. (stop_break x.0, x.1)) (λ x. (stop_break x.0, x.1)) (m w) _ (p w plain) refl
      (λ q. q)

Silent-continue :
    (m m' : M (Unit {0}))
    → Silent (Unit {0}) m m'
    → Silent (Unit {0}) (catch_continue m) (catch_continue m')
unfolding catch_continue
Silent-continue m m' p w plain =
    around (λ x. (stop_continue x.0, x.1)) (λ x. (stop_continue x.0, x.1)) (m w) _ (p w plain) refl
      (λ q. q)

enter-IsPlain : (t : Template) (v : Value) (w : World) → IsPlain w → IsPlain (Brackets.enter t v w)
unfolding Brackets.enter is_exploring is_symbolic
enter-IsPlain t v w p = ground arith

leave-IsPlain : (t : Template) (w w' : World) → IsPlain w' → IsPlain (Brackets.leave t w w')
unfolding Brackets.leave Brackets.leave_recorder is_exploring is_symbolic
leave-IsPlain t w w' p = ground arith

Silent-execute :
    (t : Template) (v : Value) (m m' : M (Unit {0}))
    → Silent (Unit {0}) m m'
    → Silent (Text × Option Text) (Brackets.execute_with t v m) (Brackets.execute_with t v m')
unfolding Brackets.execute_with
Silent-execute t v m m' p w plain =
    around (λ x. (Brackets.recover_error x.1.out x.0, Brackets.leave t w x.1))
      (λ x. (Brackets.recover_error x.1.out x.0, Brackets.leave t (erase w) x.1))
      (m (Brackets.enter t v w)) _ (p (Brackets.enter t v w) (enter-IsPlain t v w plain)) refl
      (leave-IsPlain t w (m (Brackets.enter t v w)).1)

Silent-invoke :
    (t : Template) (v : Value) (m m' : M (Unit {0}))
    → Silent (Unit {0}) m m'
    → Silent (Unit {0}) (Brackets.invoke_with t v m) (Brackets.invoke_with t v m')
unfolding Brackets.invoke_with is_exploring is_symbolic
Silent-invoke t v m m' p w plain =
    around (Brackets.leave_invoked w) (Brackets.leave_invoked (erase w))
      (m (Brackets.enter_invoked t v w)) _ (p (Brackets.enter_invoked t v w) plain) refl (λ q. q)

erase-open_action : (h : Host) (n : Node) (w : World) → erase (Brackets.open_action h n w) ≡ erase w
unfolding Brackets.open_action
erase-open_action h n w = ground arith

open_action-IsPlain :
    (h : Host) (n : Node) (w : World) → IsPlain w → IsPlain (Brackets.open_action h n w)
unfolding Brackets.open_action is_exploring is_symbolic
open_action-IsPlain h n w p = ground arith

close_action-erased :
    (h : Host) (n : Node) (w : World) (x : Result Text × World)
    → Brackets.close_action h n (erase w) (erased x) ≡ erased (Brackets.close_action h n w x)
unfolding Brackets.close_action
close_action-erased h n w (ok text, w') = ground arith
close_action-erased h n w (panics p, w') = refl

close_action-IsPlain :
    (h : Host) (n : Node) (w : World) (x : Result Text × World)
    → IsPlain x.1
    → IsPlain (Brackets.close_action h n w x).1
unfolding Brackets.close_action is_exploring is_symbolic
close_action-IsPlain h n w (ok text, w') p = ground arith
close_action-IsPlain h n w (panics q, w') p = p

Silent-action :
    (h : Host) (n : Node) (m m' : M Text)
    → Silent Text m m'
    → Silent (Unit {0}) (Brackets.walk_action h n m) (Brackets.walk_action h n m')
unfolding Brackets.walk_action
Silent-action h n m m' p w plain =
    let w₁ = Brackets.open_action h n w in
    let (e, next) = p w₁ (open_action-IsPlain h n w plain) in
    (
      ap (λ u. Brackets.close_action h n (erase w) (m' u)) (sym (erase-open_action h n w))
          ∙ (ap (Brackets.close_action h n (erase w)) e ∙ close_action-erased h n w (m w₁)),
      close_action-IsPlain h n w (m w₁) next,
    )

Silent-text :
    (h : Host) (n : Node) (text : Text)
    → Silent (Unit {0}) (Brackets.walk_text h n text) (Brackets.walk_text h n text)
unfolding Brackets.walk_text is_exploring is_symbolic
Silent-text h n text w plain = (ground arith, ground arith)

explore_maybe-eq :
    (h : Host) (guard : Text) (o : Option Recorder) (m : M (Unit {0})) (w : World)
    → elim o [ none ↦ false | some r ↦ r.branches ] ≡ false
    → Brackets.explore_maybe h guard o m w ≡ (ok tt, w)
unfolding Brackets.explore_maybe Brackets.explores
explore_maybe-eq h guard none m w e = refl
explore_maybe-eq h guard (some r) m w e = rw e

Silent-explore :
    (h : Host) (n : Node) (kind : Text) (pipe : Pipe) (which : Text) (m m' : M (Unit {0}))
    → Silent (Unit {0}) m m'
    → Silent
        (Unit {0})
        (Brackets.explore_with h n kind pipe which m)
        (Brackets.explore_with h n kind pipe which m')
unfolding Brackets.explore_with Brackets.explore_maybe is_exploring
Silent-explore h n kind pipe which m m' p w plain =
    let e =
      explore_maybe-eq h (Brackets.guard_text h w.inner n kind pipe which) w.trace.rec m w
        plain.0 in
    (ap erased (sym e), rw e plain)

Silent-guard :
    (h : Host) (n : Node) (m m' : M (Unit {0}))
    → Silent (Unit {0}) m m'
    → Silent (Unit {0}) (Brackets.sym_guard h n m) (Brackets.sym_guard h n m')
unfolding Brackets.sym_guard
Silent-guard h n m m' p w plain = unfold is_symbolic in rw plain.1 (p w plain)

Silent-read :
    (h : Host) (n : Node) (path : List Text)
    → Silent (Unit {0}) (record_read h n path) (record_read h n path)
unfolding record_read is_exploring is_symbolic
Silent-read h n [] w plain = (refl, plain)
Silent-read h n (x ∷ xs) w plain = (ground arith, ground arith)

Silent-dot :
    (h : Host) (n : Node) (v : Value) → Silent (Unit {0}) (record_dot h n v) (record_dot h n v)
unfolding record_dot record_with is_exploring is_symbolic
Silent-dot h n v w plain = (ground arith, ground arith)

Silent-arm :
    (h : Host) (n : Node) (kind : Text) (pipe : Pipe) (taken : Text) (b : Bool) (value : Text)
    → Silent (Unit {0}) (arm h n kind pipe taken b value) (arm h n kind pipe taken b value)
unfolding arm record_with is_exploring is_symbolic
Silent-arm h n kind pipe taken b value w plain = (ground arith, ground arith)

Silent-symbolic : Silent Bool symbolic symbolic
unfolding symbolic is_symbolic
Silent-symbolic w plain = (ground arith, plain)

Silent-exploring : Silent Bool exploring exploring
unfolding exploring is_exploring
Silent-exploring w plain = (ground arith, plain)

silent_logic : (h : Host) → Logic h
unfolding pure raise inner update
silent_logic h = record {
  Evals = Silent;
  Walks = Silent;
  walks = λ A m m' p. p;
  evals_pure = λ A a w plain. (refl, plain);
  evals_raise = λ A p go w plain. (refl, plain);
  evals_bind = Silent-bind;
  walks_bind = Silent-bind;
  evals_inner = λ w plain. (refl, plain);
  evals_update = λ f mild w plain. (refl, plain);
  evals_symbolic = Silent-symbolic;
  evals_exploring = Silent-exploring;
  evals_read = Silent-read h;
  evals_dot = Silent-dot h;
  evals_arm = Silent-arm h;
  evals_safe = Silent-safe;
  walks_text = Silent-text h;
  walks_action = Silent-action h;
  walks_explore = Silent-explore h;
  walks_guard = Silent-guard h;
  walks_popping = Silent-popping;
  walks_break = Silent-break;
  walks_continue = Silent-continue;
}

silent-Uniform : (h : Host) → Uniform h (silent_logic h)
unfolding silent_logic raise update
silent-Uniform h = record {
  evals_out_of_fuel = λ A w plain. (refl, plain);
  evals_count = λ f w plain. (refl, plain);
  evals_execute = Silent-execute;
  walks_invoke = Silent-invoke;
}

-- A render under a recorder that neither explores nor is symbolic and the same render with no
-- recorder give the same result, and leave the same state and the same output.
pub execute_silent :
    (h : Host) (fuel : ℕ) (t : Template) (v : Value) (w : World)
    → IsPlain w
    → (execute h fuel t v (erase w)).0 ≡ (execute h fuel t v w).0
      × ((execute h fuel t v (erase w)).1 ≡ erase (execute h fuel t v w).1)
unfolding silent_logic
execute_silent h fuel t v w plain =
    let e = (execute-related h (silent_logic h) (silent-Uniform h) fuel t v w plain).0 in
    (ap (λ y. y.0) e, ap (λ y. y.1) e)
