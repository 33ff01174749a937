-- ===== src/Tpl/Halting/Laws.antt =====
-- Each step ends if the steps in it do.
use cartograph_nvim.Base.{
  ◌≤◌, Text, ◌≡◌, ◌≢◌, refl, sym, none, some, Option, List, [], ◌∷◌, arith, Bool-cases, inl, inr,
  ◌&&◌,
}
use mathlib.Core.Path.{subst}
use cartograph_nvim.Tpl.Syntax.{Node, Pipe}
use cartograph_nvim.Tpl.Host.{Host, Group, Answer}
use cartograph_nvim.Tpl.Record.{Recorder}
use cartograph_nvim.Base.{ℕ}
use cartograph_nvim.Tpl.World.{
  Inner, World, exec_error, runtime_error, walk_break, walk_continue, out_of_fuel, Result, ok,
  panics, M, pure, raise, inner, update,
}
use cartograph_nvim.Tpl.State.{
  leave_popping, popping, stop_break, stop_continue, catch_break, catch_continue,
}
use cartograph_nvim.Tpl.Prov.{
  is_symbolic, symbolic, exploring, record_read, record_with, record_dot, arm,
}
use cartograph_nvim.Tpl.Brackets.{
  write, close_span, walk_text, walk_action, open_action, close_action, explore_with, explore_maybe,
  explore_under, explores, enter_arm, leave_arm, finish_arm, swallow, guard_text, sym_guard,
  guard_error, unguarded,
}
use cartograph_nvim.Tpl.Call.{included_count, safe, safe_call}
use cartograph_nvim.Tpl.Logic.{Logic}
use cartograph_nvim.Tpl.Halting.Steps.{
  Kept, Kept-refl, Kept-trans, Ready, Ended, Ends, Ends-bind, same_inner,
}

-- What is done around a computation that ends, if it makes no end of fuel and keeps the state.
around-Ended :
    {A B : Type 0} (w : World) (x : Result A × World) (y : Result B × World)
    → (y.0 ≡ panics out_of_fuel → x.0 ≡ panics out_of_fuel)
    → Kept x.1.inner y.1.inner
    → Ended w x
    → Ended w y
around-Ended w x y f k p = record { ends = λ e. p.ends (f e); kept = Kept-trans _ _ _ p.kept k }

safe-fuel : (r : Result Answer) → safe r ≡ panics out_of_fuel → r ≡ panics out_of_fuel
safe-fuel (ok a) e = cc
safe-fuel (panics (exec_error name t)) e = cc
safe-fuel (panics (runtime_error t)) e = cc
safe-fuel (panics walk_break) e = cc
safe-fuel (panics walk_continue) e = cc
safe-fuel (panics out_of_fuel) e = refl

stop_break-fuel :
    (r : Result (Unit {0})) → stop_break r ≡ panics out_of_fuel → r ≡ panics out_of_fuel
stop_break-fuel (panics walk_break) e = cc
stop_break-fuel (ok u) e = e
stop_break-fuel (panics (exec_error name t)) e = e
stop_break-fuel (panics (runtime_error t)) e = e
stop_break-fuel (panics walk_continue) e = e
stop_break-fuel (panics out_of_fuel) e = e

stop_continue-fuel :
    (r : Result (Unit {0})) → stop_continue r ≡ panics out_of_fuel → r ≡ panics out_of_fuel
stop_continue-fuel (panics walk_continue) e = cc
stop_continue-fuel (ok u) e = e
stop_continue-fuel (panics (exec_error name t)) e = e
stop_continue-fuel (panics (runtime_error t)) e = e
stop_continue-fuel (panics walk_break) e = e
stop_continue-fuel (panics out_of_fuel) e = e

swallow-fuel : (r : Result (Unit {0})) → swallow r ≡ panics out_of_fuel → r ≡ panics out_of_fuel
swallow-fuel (ok u) e = cc
swallow-fuel (panics (exec_error name t)) e = cc
swallow-fuel (panics (runtime_error t)) e = cc
swallow-fuel (panics walk_break) e = cc
swallow-fuel (panics walk_continue) e = cc
swallow-fuel (panics out_of_fuel) e = refl

guard_error-fuel :
    (h : Host) (n : Node) (x : Result (Unit {0}) × World)
    → (guard_error h n x).0 ≡ panics out_of_fuel
    → x.0 ≡ panics out_of_fuel
unfolding guard_error
guard_error-fuel h n (ok u, w) e = e
guard_error-fuel h n (panics (exec_error name t), w) e = cc
guard_error-fuel h n (panics (runtime_error t), w) e = e
guard_error-fuel h n (panics walk_break, w) e = e
guard_error-fuel h n (panics walk_continue, w) e = e
guard_error-fuel h n (panics out_of_fuel, w) e = e

guard_error-inner :
    (h : Host) (n : Node) (x : Result (Unit {0}) × World) → (guard_error h n x).1.inner ≡ x.1.inner
unfolding guard_error write
guard_error-inner h n (ok u, w) = refl
guard_error-inner h n (panics (exec_error name t), w) = refl
guard_error-inner h n (panics (runtime_error t), w) = refl
guard_error-inner h n (panics walk_break, w) = refl
guard_error-inner h n (panics walk_continue, w) = refl
guard_error-inner h n (panics out_of_fuel, w) = refl

close_action-fuel :
    (h : Host) (n : Node) (w : World) (x : Result Text × World)
    → (close_action h n w x).0 ≡ panics out_of_fuel
    → x.0 ≡ panics out_of_fuel
unfolding close_action
close_action-fuel h n w (ok t, w') e = cc
close_action-fuel h n w (panics p, w') e = cc

close_action-inner :
    (h : Host) (n : Node) (w : World) (x : Result Text × World)
    → (close_action h n w x).1.inner ≡ x.1.inner
unfolding close_action write close_span
close_action-inner h n w (ok t, w') = ground arith
close_action-inner h n w (panics p, w') = refl

open_action-inner : (h : Host) (n : Node) (w : World) → (open_action h n w).inner ≡ w.inner
unfolding open_action
open_action-inner h n w = ground arith

walk_text-inner :
    (h : Host) (n : Node) (t : Text) (w : World) → (walk_text h n t w).1.inner ≡ w.inner
unfolding walk_text write close_span
walk_text-inner h n t w = ground arith

record_read-inner :
    (h : Host) (n : Node) (path : List Text) (w : World)
    → (record_read h n path w).1.inner ≡ w.inner
unfolding record_read
record_read-inner h n [] w = refl
record_read-inner h n (x ∷ xs) w = ground arith

record_read-ok :
    (h : Host) (n : Node) (path : List Text) (w : World)
    → (record_read h n path w).0 ≢ panics out_of_fuel
unfolding record_read
record_read-ok h n [] w e = cc e
record_read-ok h n (x ∷ xs) w e = cc e

record_with-inner :
    (f : World → Recorder → Recorder) (w : World) → (record_with f w).1.inner ≡ w.inner
unfolding record_with
record_with-inner f w = ground arith

Kept-same : (s t : Inner) → t ≡ s → Kept s t
Kept-same s t e = subst (Kept s) (sym e) (Kept-refl s)

Kept-mild :
    (s t : Inner) → (t.group ≡ s.group) × (t.depth ≡ s.depth) × (t.included ≡ s.included) → Kept s t
Kept-mild s t (a, b, c) = record {
  group = a;
  depth = b;
  included =
      λ k. subst (λ m. included_count k s.included ≤ included_count k m) (sym c) (omega arith);
}

record_read-Ended :
    (h : Host) (n : Node) (path : List Text) (w : World) → Ended w (record_read h n path w)
record_read-Ended h n path w = record {
  ends = λ e. record_read-ok h n path w e;
  kept = Kept-same _ _ (record_read-inner h n path w);
}

record_with-Ended : (f : World → Recorder → Recorder) (w : World) → Ended w (record_with f w)
unfolding record_with
record_with-Ended f w = record { ends = λ e. cc e; kept = Kept-same _ _ (record_with-inner f w) }

module _ (g : Group) (r : ℕ) where
  -- A step that returns and leaves the state.
  quiet : {A : Type 0} (w : World) (a : A) (w' : World) → w'.inner ≡ w.inner → Ended w (ok a, w')
  quiet w a w' e = same_inner g r w a w' e

  Ends-action :
      (h : Host) (n : Node) (m m' : M Text)
      → Ends g r Text m m'
      → Ends g r (Unit {0}) (walk_action h n m) (walk_action h n m')
  unfolding walk_action
  Ends-action h n m m' p w ready =
      let e = open_action-inner h n w in
      let x = m (open_action h n w) in
      let k = p (open_action h n w) (subst (Ready g r) (sym e) ready) in
      record {
        ends = λ q. k.ends (close_action-fuel h n w x q);
        kept =
            Kept-trans _ _ _ (Kept-same _ _ e)
              (Kept-trans _ _ _ k.kept (Kept-same _ _ (close_action-inner h n w x)));
      }

  Ends-maybe :
      (h : Host) (guard : Text) (o : Option Recorder) (m : M (Unit {0}))
      → Ends g r (Unit {0}) m m
      → Ends g r (Unit {0}) (explore_maybe h guard o m) (explore_maybe h guard o m)
  unfolding explore_maybe enter_arm leave_arm finish_arm
  Ends-maybe h guard none m p w ready = quiet w tt w refl
  Ends-maybe h guard (some q) m p w ready = elim (Bool-cases (explores guard q)) [
    | inl c ↦
        let k = p (enter_arm guard q w) ready in
        let x = m (enter_arm guard q w) in
        rw (explore_under, c)
          (record {
            ends = λ e. k.ends (swallow-fuel x.0 e);
            kept = record {
              group = k.kept.group;
              depth = k.kept.depth;
              included = k.kept.included;
            };
          })
    | inr c ↦ rw (explore_under, c) (quiet w tt w refl)
  ]

  Ends-explore :
      (h : Host) (n : Node) (kind : Text) (pipe : Pipe) (which : Text) (m m' : M (Unit {0}))
      → Ends g r (Unit {0}) m m'
      → Ends g r
          (Unit {0})
          (explore_with h n kind pipe which m)
          (explore_with h n kind pipe which m')
  unfolding explore_with
  Ends-explore h n kind pipe which m m' p w ready =
      Ends-maybe h (guard_text h w.inner n kind pipe which) w.trace.rec m p w ready

  Ends-guard :
      (h : Host) (n : Node) (m m' : M (Unit {0}))
      → Ends g r (Unit {0}) m m'
      → Ends g r (Unit {0}) (sym_guard h n m) (sym_guard h n m')
  unfolding sym_guard
  Ends-guard h n m m' p w ready = elim (Bool-cases (is_symbolic w.trace && unguarded w.trace)) [
    | inl e ↦ rw e (
        around-Ended w (m w) _ (guard_error-fuel h n (m w))
          (Kept-same _ _ (guard_error-inner h n (m w))) (p w ready))
    | inr e ↦ rw e (p w ready)
  ]

  Ends-popping : (A : Type 0) (m m' : M A) → Ends g r A m m' → Ends g r A (popping m) (popping m')
  unfolding popping leave_popping
  Ends-popping A m m' p w ready =
      let k = p w ready in
      record {
        ends = k.ends;
        kept = record { group = k.kept.group; depth = k.kept.depth; included = k.kept.included };
      }

  pub halting_logic : (h : Host) → Logic h
  unfolding pure raise inner update symbolic exploring safe_call catch_break catch_continue
      record_dot arm walk_text
  halting_logic h = record {
    Evals = Ends g r;
    Walks = Ends g r;
    walks = λ A m m' p. p;
    evals_pure = λ A a w ready. quiet w a w refl;
    evals_raise = λ A p go w ready. record { ends = λ e. go cc; kept = Kept-refl w.inner };
    evals_bind = Ends-bind g r;
    walks_bind = Ends-bind g r;
    evals_inner = λ w ready. quiet w w.inner w refl;
    evals_update = λ f mild w ready. record {
      ends = λ e. cc e;
      kept = Kept-mild w.inner (f w.inner) (mild w.inner);
    };
    evals_symbolic = λ w ready. quiet w _ w refl;
    evals_exploring = λ w ready. quiet w _ w refl;
    evals_read = λ n path w ready. record_read-Ended h n path w;
    evals_dot = λ n v w ready. record_with-Ended _ w;
    evals_arm = λ n kind pipe taken b value w ready. record_with-Ended _ w;
    evals_safe =
        λ m m' p w ready. around-Ended w (m w) _ (safe-fuel (m w).0) (Kept-refl _) (p w ready);
    walks_text = λ n t w ready. quiet w tt _ (walk_text-inner h n t w);
    walks_action = Ends-action h;
    walks_explore = Ends-explore h;
    walks_guard = Ends-guard h;
    walks_popping = Ends-popping;
    walks_break = λ m m' p w ready.
        around-Ended w (m w) _ (stop_break-fuel (m w).0) (Kept-refl _) (p w ready);
    walks_continue = λ m m' p w ready.
        around-Ended w (m w) _ (stop_continue-fuel (m w).0) (Kept-refl _) (p w ready);
  }

  module _ (h : Host) (A : Type 0) (m m' : M A) where
    pub Evals-Ends : (halting_logic h).Evals A m m' → Ends g r A m m'
    unfolding halting_logic
    Evals-Ends p = p

    pub Walks-Ends : (halting_logic h).Walks A m m' → Ends g r A m m'
    unfolding halting_logic
    Walks-Ends p = p

    pub Ends-Evals : Ends g r A m m' → (halting_logic h).Evals A m m'
    unfolding halting_logic
    Ends-Evals p = p

    pub Ends-Walks : Ends g r A m m' → (halting_logic h).Walks A m m'
    unfolding halting_logic
    Ends-Walks p = p
