-- ===== src/Tpl/Halting.antt =====
-- Every render ends: the bounds on the depth of templates and on includes, maxExecDepth of
-- tools/helmprov/tpl/exec.go and recursionMaxNums of engine/engine.go, bound the fuel that it needs.
pub mod Spare
pub mod Steps
mod Laws
pub mod Jumps
use cartograph_nvim.Base.{
  ℕ, zero, suc, ◌+◌, ◌*◌, ◌≤◌, Text, text_eq, ◌≡◌, refl, ap, none, some, Option, List, [], ◌∷◌,
  arith, Bool-cases, inl, inr, if◌then◌else◌, true, false,
}
use native.Mathlib.Nat.{mul-le-mul_right}
use cartograph_nvim.Tpl.Syntax.{Node}
use cartograph_nvim.Tpl.Value.{Value}
use cartograph_nvim.Tpl.Host.{Host, Group, Template, lookup_template}
use cartograph_nvim.Tpl.World.{World, M, on_option}
use cartograph_nvim.Tpl.State.{errorf}
use cartograph_nvim.Tpl.Brackets.{enter}
use cartograph_nvim.Tpl.Call.{run_template}
use cartograph_nvim.Tpl.Run
use cartograph_nvim.Tpl.Run.{calls}
use cartograph_nvim.Tpl.Logic.{
  CallsRelated, node_size, node_positive, pipe_positive, step-related, evals_errorf,
}
use Spare.{spare}
use Steps.{Ready, Ended, Ends}
use Laws.{halting_logic, Evals-Ends, Walks-Ends}
use Jumps.{Sized, TplReturns, jumps-Ends, execute-Ended}

unfoldable pub root_size : Option Node → ℕ
unfolding node_size
root_size none = 0
root_size (some n) = node_size n

-- the sizes of the bodies of the templates, together
unfoldable pub root_sizes : List Template → ℕ
unfolding root_size
root_sizes [] = 0
root_sizes (t ∷ ts) = root_size t.root + root_sizes ts

-- Enough fuel to render `t`: for each template that may still be entered by its name a level for
-- each node of the bodies.
unfoldable pub enough : Template → World → ℕ
unfolding spare root_sizes
enough t w =
    let size = root_size t.root + root_sizes w.inner.group.templates in
    (spare w.inner.group.templates w.inner.included * 100001 + 100000) * (size + 1) + size

pub found_size :
    (ts : List Template) (name : Text) (t : Template)
    → lookup_template ts name ≡ some t
    → root_size t.root ≤ root_sizes ts
unfolding lookup_template root_sizes
found_size [] name t e = cc
found_size (u ∷ ts) name t e = elim (Bool-cases (text_eq u.name name)) [
  | inl k ↦ ground arith
  | inr k ↦ ground (arith, found_size ts name t)
]

module _ (h : Host) (g : Group) (size : ℕ) (sized : Sized g size) (returns : TplReturns h) where
  no_tree : (fuel r : ℕ) → CallsRelated h (halting_logic g r h) 0 (calls h fuel) (calls h fuel)
  no_tree fuel r = record {
    walk = λ v n s. absurd (omega (arith, s, node_positive n));
    eval_pipeline = λ v p s. absurd (omega (arith, s, pipe_positive p));
    eval_arg = λ v t n s. absurd (omega (arith, s, node_positive n));
  }

  below-Ends :
      (fuel r d : ℕ)
      → r * (size + 1) + d ≤ fuel
      → CallsRelated h (halting_logic g r h) d (calls h fuel) (calls h fuel)
  unfolding calls
  below-Ends fuel r zero l = no_tree fuel r
  below-Ends zero r (suc d) l = absurd (omega arith)
  below-Ends (suc f) r (suc d) l =
      let rel = below-Ends f r d (omega arith) in
      step-related h (halting_logic g r h) d (calls h f) (calls h f) rel (
        jumps-Ends h g size sized returns r d (calls h f) rel (λ q less v root s.
          Walks-Ends g q h _ _ _ (
            (below-Ends f q size (omega (arith, mul-le-mul_right (size + 1) less))).walk v root s)))

-- Templates of a group are found with bodies below the bound.
found-Sized : (g : Group) (size : ℕ) → root_sizes g.templates ≤ size → Sized g size
unfolding root_size
found-Sized g size l name t root found e =
    let small = found_size g.templates name t found in
    let here : root_size t.root ≡ node_size root = ap root_size e in omega (arith, small, here, l)

body-Ends :
    (h : Host) (g : Group) (r size fuel : ℕ) (v : Value) (msg : Text) (o : Option Node)
    → root_size o ≤ size
    → CallsRelated h (halting_logic g r h) size (calls h fuel) (calls h fuel)
    → Ends g r
        (Unit {0})
        (on_option o (errorf h msg) ((calls h fuel).walk v))
        (on_option o (errorf h msg) ((calls h fuel).walk v))
unfolding root_size
body-Ends h g r size fuel v msg none l rel =
    Evals-Ends g r h _ _ _ (evals_errorf h (halting_logic g r h) _ msg)
body-Ends h g r size fuel v msg (some root) l rel = Walks-Ends g r h _ _ _ (rel.walk v root l)

run_template-Ends :
    (h : Host) (g : Group) (r size fuel : ℕ) (t : Template) (v : Value)
    → root_size t.root ≤ size
    → CallsRelated h (halting_logic g r h) size (calls h fuel) (calls h fuel)
    → Ends g r (Unit {0}) (run_template h (calls h fuel) t v) (run_template h (calls h fuel) t v)
unfolding run_template
run_template-Ends h g r size fuel t v l rel = body-Ends h g r size fuel v _ t.root l rel

-- An execution ends and keeps the group, where the body of its template and those of the group are
-- within a size, and what its includes may still use within a rank.
pub execute_within :
    (h : Host) (fuel size r : ℕ) (t : Template) (v : Value) (w : World)
    → TplReturns h
    → root_size t.root ≤ size
    → root_sizes w.inner.group.templates ≤ size
    → spare w.inner.group.templates w.inner.included * 100001 + 100000 ≤ r
    → r * (size + 1) + size ≤ fuel
    → Ended w (Run.execute h fuel t v w)
unfolding Run.execute
execute_within h fuel size r t v w returns own all bound l =
    let g = w.inner.group in
    let sized = found-Sized g size all in
    let rel = below-Ends h g size sized returns fuel r size l in
    let body = run_template-Ends h g r size fuel t v own rel in
    let ready : Ready g r (enter t v w).inner =
      unfold enter in record { group = refl; depth = omega arith; bound = omega (arith, bound) } in
    execute-Ended h g r (calls h fuel) t v w body ready
