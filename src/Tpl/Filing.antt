-- ===== src/Tpl/Filing.antt =====
-- A render changes no file of the recorder but its own: the executions inside it file nothing,
-- tools/helmprov/tpl/exec.go.
mod View
use cartograph_nvim.Base.{
  ℕ, zero, suc, ◌+◌, Text, text_eq, text_eq_sound, text_eq_refl, Bool, true, false, ◌≡◌, refl, sym,
  ap, ◌∙◌, none, some, Option, Option-cases, Bool-cases, inl, inr, List, [], ◌∷◌, length, arith,
  if◌then◌else◌, ◌&&◌, text_eq_differ, text_eq_same,
}
use mathlib.Core.Path.{subst}
use cartograph_nvim.Tpl.Syntax.{Node, Pipe}
use cartograph_nvim.Tpl.Value.{Value}
use cartograph_nvim.Tpl.Host.{Host, Template, Answer}
use cartograph_nvim.Tpl.Record.{Recorder, File, Span, find_file}
use cartograph_nvim.Tpl.World.{
  World, Result, ok, panics, M, continue, pure, raise, ◌>>=◌, inner, update,
}
use cartograph_nvim.Tpl.State.{leave_popping, popping, catch_break, catch_continue}
use cartograph_nvim.Tpl.Prov.{
  is_symbolic, symbolic, exploring, record_read, record_with, record_dot, arm,
}
use cartograph_nvim.Tpl.Brackets.{
  walk_action, open_action, execute_with, enter, leave, leave_recorder, set_file, invoke_with,
  enter_invoked, explore_with, explore_maybe, explore_under, enter_arm, explores, guard_text,
  sym_guard, unguarded,
}
use cartograph_nvim.Tpl.Call.{safe_call}
use cartograph_nvim.Tpl.Call
use cartograph_nvim.Tpl.Run.{calls, execute}
use cartograph_nvim.Tpl.Logic.{Logic, Uniform, calls-related, walks_run_template}
use View.{
  view, IsInside, view-leave, enter-IsInside, view-close_action, view-open_action, view-walk_text,
  view-record_read, view-guard_error, view-leave_arm,
}

abbrev Unfiled : (A : Type 0) → M A → M A → Type 0
Unfiled A m m' = (w : World) → IsInside w → view (m w).1 ≡ view w

same-IsInside : (w w' : World) → view w' ≡ view w → IsInside w → IsInside w'
same-IsInside w w' e (n, d) = (n, ap (λ x. x.depth) e ∙ d)

continue-view :
    {A B : Type 0} (f : A → M B) (x : Result A × World)
    → IsInside x.1
    → ((a : A) → Unfiled B (f a) (f a))
    → view (continue f x.0 x.1).1 ≡ view x.1
continue-view f (ok a, w) i p = p a w i
continue-view f (panics e, w) i p = refl

Unfiled-bind :
    (A B : Type 0) (m m' : M A) (f f' : A → M B)
    → Unfiled A m m'
    → ((a : A) → Unfiled B (f a) (f' a))
    → Unfiled B (m >>= f) (m' >>= f')
unfolding ◌>>=◌
Unfiled-bind A B m m' f f' p q w i =
    continue-view f (m w) (same-IsInside w (m w).1 (p w i) i) q ∙ p w i

Unfiled-action :
    (h : Host) (n : Node) (m m' : M Text)
    → Unfiled Text m m'
    → Unfiled (Unit {0}) (walk_action h n m) (walk_action h n m')
unfolding walk_action
Unfiled-action h n m m' p w i =
    let w₁ = open_action h n w in
    let e = view-open_action h n w in
    view-close_action h n w (m w₁) ∙ (p w₁ (same-IsInside w w₁ e i) ∙ e)

Unfiled-execute :
    (t : Template) (v : Value) (m m' : M (Unit {0}))
    → Unfiled (Unit {0}) m m'
    → Unfiled (Text × Option Text) (execute_with t v m) (execute_with t v m')
unfolding execute_with
Unfiled-execute t v m m' p w i =
    view-leave t v w (m (enter t v w)).1 i (p (enter t v w) (enter-IsInside t v w i))

Unfiled-invoke :
    (t : Template) (v : Value) (m m' : M (Unit {0}))
    → Unfiled (Unit {0}) m m'
    → Unfiled (Unit {0}) (invoke_with t v m) (invoke_with t v m')
unfolding invoke_with view
Unfiled-invoke t v m m' p w i = p (enter_invoked t v w) i

enter_arm-IsInside :
    (guard : Text) (r : Recorder) (w : World)
    → w.trace.rec ≡ some r
    → IsInside w
    → IsInside (enter_arm guard r w)
unfolding enter_arm view
enter_arm-IsInside guard r w e (n, d) = (n, ground arith)

view-maybe :
    (h : Host) (guard : Text) (o : Option Recorder) (m : M (Unit {0})) (w : World)
    → Unfiled (Unit {0}) m m
    → IsInside w
    → w.trace.rec ≡ o
    → view (explore_maybe h guard o m w).1 ≡ view w
unfolding explore_maybe
view-maybe h guard none m w p i e = refl
view-maybe h guard (some r) m w p i e = elim (Bool-cases (explores guard r)) [
  | inl c ↦
      let x = m (enter_arm guard r w) in
      rw (explore_under, c)
        (view-leave_arm h guard r x.0 w x.1 e
          (p (enter_arm guard r w) (enter_arm-IsInside guard r w e i)))
  | inr c ↦ rw (explore_under, c) refl
]

Unfiled-explore :
    (h : Host) (n : Node) (kind : Text) (pipe : Pipe) (which : Text) (m m' : M (Unit {0}))
    → Unfiled (Unit {0}) m m'
    → Unfiled (Unit {0}) (explore_with h n kind pipe which m) (explore_with h n kind pipe which m')
unfolding explore_with
Unfiled-explore h n kind pipe which m m' p w i =
    view-maybe h (guard_text h w.inner n kind pipe which) w.trace.rec m w p i refl

Unfiled-guard :
    (h : Host) (n : Node) (m m' : M (Unit {0}))
    → Unfiled (Unit {0}) m m'
    → Unfiled (Unit {0}) (sym_guard h n m) (sym_guard h n m')
unfolding sym_guard
Unfiled-guard h n m m' p w i = elim (Bool-cases (is_symbolic w.trace && unguarded w.trace)) [
  | inl e ↦ rw e (view-guard_error h n (m w) ∙ p w i)
  | inr e ↦ rw e (p w i)
]

Unfiled-dot :
    (h : Host) (n : Node) (v : Value) → Unfiled (Unit {0}) (record_dot h n v) (record_dot h n v)
unfolding record_dot record_with view
Unfiled-dot h n v w i = ground arith

Unfiled-arm :
    (h : Host) (n : Node) (kind : Text) (pipe : Pipe) (taken : Text) (b : Bool) (value : Text)
    → Unfiled (Unit {0}) (arm h n kind pipe taken b value) (arm h n kind pipe taken b value)
unfolding arm record_with view
Unfiled-arm h n kind pipe taken b value w i = ground arith

filing_logic : (h : Host) → Logic h
unfolding pure raise inner update symbolic exploring safe_call popping leave_popping catch_break
    catch_continue view
filing_logic h = record {
  Evals = Unfiled;
  Walks = Unfiled;
  walks = λ A m m' p. p;
  evals_pure = λ A a w i. refl;
  evals_raise = λ A p go w i. refl;
  evals_bind = Unfiled-bind;
  walks_bind = Unfiled-bind;
  evals_inner = λ w i. refl;
  evals_update = λ f mild w i. refl;
  evals_symbolic = λ w i. refl;
  evals_exploring = λ w i. refl;
  evals_read = λ n path w i. view-record_read h n path w;
  evals_dot = Unfiled-dot h;
  evals_arm = Unfiled-arm h;
  evals_safe = λ m m' p. p;
  walks_text = λ n t w i. view-walk_text h n t w;
  walks_action = Unfiled-action h;
  walks_explore = Unfiled-explore h;
  walks_guard = Unfiled-guard h;
  walks_popping = λ A m m' p. p;
  walks_break = λ m m' p. p;
  walks_continue = λ m m' p. p;
}

filing-Uniform : (h : Host) → Uniform h (filing_logic h)
unfolding filing_logic raise update view
filing-Uniform h = record {
  evals_out_of_fuel = λ A w i. refl;
  evals_count = λ f w i. refl;
  evals_execute = Unfiled-execute;
  walks_invoke = Unfiled-invoke;
}

-- The spans on file under a name, where there is a recorder.
unfoldable pub filed : Text → Option Recorder → Option (List Span)
filed name none = none
filed name (some r) = find_file name r.files

pub find-set_other :
    (name other : Text) (spans : List Span) (fs : List File)
    → text_eq name other ≡ false
    → find_file other (set_file name spans fs) ≡ find_file other fs
unfolding find_file set_file
find-set_other name other spans [] n = ground arith
find-set_other name other spans (f ∷ fs) n = elim (Bool-cases (text_eq f.name name)) [
  | inl e ↦ ground (arith, text_eq_same f.name name other e)
  | inr e ↦ ground (arith, find-set_other name other spans fs n)
]

left_other :
    (t : Template) (v : Value) (w w' : World) (r : Recorder) (other : Text)
    → w.trace.rec ≡ some r
    → view w' ≡ view (enter t v w)
    → text_eq t.name other ≡ false
    → filed other (leave t w w').trace.rec ≡ find_file other r.files
unfolding filed view enter leave leave_recorder
left_other t v w w' r other e k n =
    let files = ap (λ x. x.files) k in
    elim (Option-cases w'.trace.rec) [
      | inl b ↦ ground arith
      | inr (q, b) ↦
          let same : q.files ≡ r.files = ground arith in
          elim (Option-cases w'.trace.count) [
            | inl c ↦ ground arith
            | inr (i, c) ↦ ground (arith, find-set_other t.name other w'.trace.spans q.files n)
          ]
    ]

-- A top-level render, however it ends, leaves the spans on file under every name but its template's as
-- they were.
pub execute_keeps_files :
    (h : Host) (fuel : ℕ) (t : Template) (v : Value) (w : World) (r : Recorder) (other : Text)
    → w.trace.rec ≡ some r
    → r.depth ≡ 0
    → text_eq t.name other ≡ false
    → filed other (execute h fuel t v w).1.trace.rec ≡ find_file other r.files
unfolding execute Call.execute execute_with filing_logic
execute_keeps_files h fuel t v w r other e d n =
    let l = filing_logic h in
    let u = filing-Uniform h in
    let inside : IsInside (enter t v w) = unfold enter view in (0, ground arith) in
    let k =
      walks_run_template h l u (calls h fuel) (calls h fuel) (calls-related h l u fuel) t v
        (enter t v w) inside in
    left_other t v w (Call.run_template h (calls h fuel) t v (enter t v w)).1 r other e k n
