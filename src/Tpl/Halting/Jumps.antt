-- ===== src/Tpl/Halting/Jumps.antt =====
-- The calls of templates by their names end: each leaves one less to be entered.
use cartograph_nvim.Base.{
  ℕ, suc, ◌+◌, ◌-◌, ◌≤◌, ◌<◌, Text, ◌≡◌, ◌≢◌, refl, sym, ap, ◌∙◌, none, some, Option, Option-cases,
  List, arith, Bool-cases, inl, inr, if◌then◌else◌, ltb, ◌==◌,
}
use mathlib.Core.Path.{subst}
use cartograph_nvim.Tpl.Syntax.{Node, OptPipe}
use cartograph_nvim.Tpl.Value.{Value}
use cartograph_nvim.Tpl.Host.{Host, Group, Template, Answer, lookup_template, set_key}
use cartograph_nvim.Tpl.World.{
  Inner, World, exec_error, runtime_error, walk_break, walk_continue, out_of_fuel, Result, ok,
  panics, M, continue, pure, raise, ◌>>=◌, inner, update, on_option,
}
use cartograph_nvim.Tpl.State.{errorf, at}
use cartograph_nvim.Tpl.Brackets.{
  enter, leave, execute_with, recover_error, enter_invoked, leave_invoked, invoke_with,
}
use cartograph_nvim.Tpl.Calls.{Calls}
use cartograph_nvim.Tpl.Call.{
  run_template, execute, execute_named, answer_of, tpl_fun, include_fun, set_included,
  leave_include, included_count, recursion_max_nums,
}
use cartograph_nvim.Tpl.Walk.{invoke, walk_template, max_exec_depth}
use cartograph_nvim.Tpl.Logic.{CallsRelated, JumpsRelated, node_size, opt_pipe_size, evals_errorf}
use cartograph_nvim.Tpl.Halting.Spare.{spare, spare-set, Grows, Grows-set, Grows-back}
use cartograph_nvim.Tpl.Halting.Steps.{
  Kept-refl, Kept-trans, Kept-Ready, Ready, Ended, Ends, Ends-bind,
}
use cartograph_nvim.Tpl.Halting.Laws.{halting_logic, Evals-Ends, Ends-Evals, Ends-Walks}

recover-fuel :
    (buf : Text) (r : Result (Unit {0}))
    → recover_error buf r ≡ panics out_of_fuel
    → r ≡ panics out_of_fuel
recover-fuel buf (ok u) e = cc
recover-fuel buf (panics (exec_error name t)) e = cc
recover-fuel buf (panics (runtime_error t)) e = cc
recover-fuel buf (panics walk_break) e = cc
recover-fuel buf (panics walk_continue) e = cc
recover-fuel buf (panics out_of_fuel) e = refl

-- The roots of the templates that a name can find are of a size at most `size`.
abbrev pub Sized : Group → ℕ → Type 0
Sized g size =
    (name : Text) (t : Template) (root : Node)
    → lookup_template g.templates name ≡ some t
    → t.root ≡ some root
    → node_size root ≤ size

-- Every call of `tpl` returns.
abbrev pub TplReturns : Host → Type 0
TplReturns h = (ts : List Template) (argv : List Value) → h.tpl ts argv ≢ none

-- An execution ends if its body does.
pub execute-Ended :
    (h : Host) (g : Group) (q : ℕ) (c : Calls) (t : Template) (v : Value) (w : World)
    → Ends g q (Unit {0}) (run_template h c t v) (run_template h c t v)
    → Ready g q (enter t v w).inner
    → Ended w (execute h c t v w)
unfolding execute execute_with leave enter
execute-Ended h g q c t v w p ready =
    let x = run_template h c t v (enter t v w) in
    let k = p (enter t v w) ready in
    record {
      ends = λ e. k.ends (recover-fuel x.1.out x.0 e);
      kept = record { group = refl; depth = refl; included = k.kept.included };
    }

module _ (h : Host) (g : Group) (size : ℕ) (sized : Sized g size) (returns : TplReturns h) (r d : ℕ)
    (c : Calls) (rel : CallsRelated h (halting_logic g r h) d c c)
    (lower : (q : ℕ)
      → suc q ≤ r
      → (v : Value) (root : Node) → node_size root ≤ size
      → Ends g q (Unit {0}) (c.walk v root) (c.walk v root)) where
  errorf-Ends : (A : Type 0) (q : ℕ) (msg : Text) → Ends g q A (errorf h msg) (errorf h msg)
  errorf-Ends A q msg = Evals-Ends g q h A _ _ (evals_errorf h (halting_logic g q h) A msg)

  -- the rank after a template call
  deeper :
      (t : Template) (v : Value) (w : World)
      → Ready g r w.inner
      → w.inner.depth ≢ 100000
      → (suc (r - 1) ≤ r) × Ready g (r - 1) (enter_invoked t v w).inner
  unfolding enter_invoked
  deeper t v w ready less =
      let below : w.inner.depth < 100000 = omega (arith, ready.depth, less) in
      (
        omega (arith, ready.bound, below),
        record {
          group = ready.group;
          depth = omega (arith, below);
          bound = omega (arith, ready.bound, below);
        },
      )

  invoked-Ended :
      (t : Template) (v : Value) (root : Node) (w : World)
      → node_size root ≤ size
      → Ready g r w.inner
      → w.inner.depth ≢ 100000
      → Ended w (invoke_with t v (c.walk v root) w)
  unfolding invoke_with enter_invoked leave_invoked
  invoked-Ended t v root w s ready less =
      let (l, next) = deeper t v w ready less in
      let k = lower (r - 1) l v root s (enter_invoked t v w) next in
      record {
        ends = k.ends;
        kept = record { group = refl; depth = refl; included = k.kept.included };
      }

  -- the root may be absent: a nil dereference
  root-Ended :
      (t : Template) (v : Value) (msg : Text) (o : Option Node) (w : World)
      → ((root : Node) → o ≡ some root → node_size root ≤ size)
      → Ready g r w.inner
      → w.inner.depth ≢ 100000
      → Ended w
          (on_option o (raise (runtime_error msg)) (λ root. invoke_with t v (c.walk v root)) w)
  unfolding raise
  root-Ended t v msg none w s ready less = record { ends = λ e. cc e; kept = Kept-refl w.inner }
  root-Ended t v msg (some root) w s ready less = invoked-Ended t v root w (s root refl) ready less

  called-Ended :
      (t : Template) (msg : Text) (w : World) (x : Result Value × World)
      → ((root : Node) → t.root ≡ some root → node_size root ≤ size)
      → Ready g r w.inner
      → w.inner.depth ≢ 100000
      → Ended w x
      → Ended w (
          continue
            (λ v.
              on_option t.root
                (raise (runtime_error msg))
                (λ root. invoke_with t v (c.walk v root)))
            x.0
            x.1)
  called-Ended t msg w (panics p, w') s ready less k = record {
    ends = λ e. k.ends cc;
    kept = k.kept;
  }
  called-Ended t msg w (ok v, w') s ready less k =
      let e : w'.inner.depth ≢ 100000 = λ q. less (omega (arith, k.kept.depth, q)) in
      let next = root-Ended t v msg t.root w' s (Kept-Ready g r w.inner w'.inner k.kept ready) e in
      record { ends = next.ends; kept = Kept-trans _ _ _ k.kept next.kept }

  invoke-Ended :
      (dot : Value) (name : Text) (t : Template) (pipe : OptPipe) (w : World)
      → opt_pipe_size pipe ≤ d
      → lookup_template g.templates name ≡ some t
      → Ready g r w.inner
      → w.inner.depth ≢ 100000
      → Ended w (invoke h c dot t pipe w)
  unfolding invoke ◌>>=◌
  invoke-Ended dot name t pipe w fits found ready less =
      called-Ended t _ w (c.eval_pipeline dot pipe w) (λ root e. sized name t root found e) ready
        less (Evals-Ends g r h Value _ _ (rel.eval_pipeline dot pipe fits) w ready)

  -- What follows the reading of the state.
  inner-Ends :
      (B : Type 0) (f : Inner → M B)
      → ((w : World) → Ready g r w.inner → Ended w (f w.inner w))
      → Ends g r B (inner >>= f) (inner >>= f)
  unfolding inner ◌>>=◌
  inner-Ends B f p w ready = p w ready

  Ends-seq :
      (A B : Type 0) (m : M A) (f : A → M B)
      → Ends g r A m m
      → ((a : A) → Ends g r B (f a) (f a))
      → Ends g r B (m >>= f) (m >>= f)
  Ends-seq A B m f p q = Ends-bind g r A B m m f f p q

  at-Ends : (n : Node) → Ends g r (Unit {0}) (at n) (at n)
  unfolding at update
  at-Ends n w ready = record {
    ends = λ e. cc e;
    kept = record { group = refl; depth = refl; included = λ k. omega arith };
  }

  named-Ended :
      (n : Node) (dot : Value) (name : Text) (pipe : OptPipe) (msg deep : Text)
      (o : Option Template) (w : World)
      → opt_pipe_size pipe ≤ d
      → lookup_template g.templates name ≡ o
      → Ready g r w.inner
      → Ended w (
          on_option o
            (errorf h msg)
            (λ t. if w.inner.depth == max_exec_depth then errorf h deep else invoke h c dot t pipe)
            w)
  named-Ended n dot name pipe msg deep none w fits found ready = errorf-Ends _ r msg w ready
  named-Ended n dot name pipe msg deep (some t) w fits found ready =
      elim (Bool-cases (w.inner.depth == 100000)) [
        | inl e ↦ rw e (errorf-Ends _ r deep w ready)
        | inr e ↦ rw e (invoke-Ended dot name t pipe w fits found ready (λ q. ground arith))
      ]

  template-Ends :
      (n : Node) (dot : Value) (name : Text) (pipe : OptPipe)
      → opt_pipe_size pipe ≤ d
      → Ends g r (Unit {0}) (walk_template h c n dot name pipe) (walk_template h c n dot name pipe)
  unfolding walk_template
  template-Ends n dot name pipe fits = Ends-seq _ _ _ _ (at-Ends n) (λ _. inner-Ends _ _ λ w ready.
      named-Ended n dot name pipe _ _ _ w fits
        (ap (λ x. lookup_template x.templates name) (sym ready.group)) ready)

  -- the rank inside an include
  included-Ready :
      (name : Text) (t : Template) (v : Value) (w w₁ : World)
      → Ready g r w.inner
      → lookup_template g.templates name ≡ some t
      → included_count name w.inner.included ≤ recursion_max_nums
      → w₁.inner.group ≡ w.inner.group
      → w₁.inner.included ≡ set_key name (included_count name w.inner.included + 1) w.inner.included
      → (suc (r - 1) ≤ r) × Ready g (r - 1) (enter t v w₁).inner
  unfolding enter
  included-Ready name t v w w₁ ready found l e k =
      let less = spare-set g.templates name t w.inner.included found l in
      let same : spare g.templates w₁.inner.included
          ≡ spare g.templates
              (set_key name (included_count name w.inner.included + 1) w.inner.included) =
        ap (spare g.templates) k in
      (
        omega (arith, less, ready.bound),
        record {
          group = e ∙ ready.group;
          depth = omega arith;
          bound = omega (arith, less, same, ready.bound);
        },
      )

  root_walk-Ends :
      (v : Value) (msg : Text) (q : ℕ) (o : Option Node)
      → suc q ≤ r
      → ((root : Node) → o ≡ some root → node_size root ≤ size)
      → Ends g q
          (Unit {0})
          (on_option o (errorf h msg) (c.walk v))
          (on_option o (errorf h msg) (c.walk v))
  root_walk-Ends v msg q none l s = errorf-Ends _ q msg
  root_walk-Ends v msg q (some root) l s = lower q l v root (s root refl)

  run_template-Ends :
      (t : Template) (v : Value) (q : ℕ)
      → suc q ≤ r
      → ((root : Node) → t.root ≡ some root → node_size root ≤ size)
      → Ends g q (Unit {0}) (run_template h c t v) (run_template h c t v)
  unfolding run_template
  run_template-Ends t v q l s = root_walk-Ends v _ q t.root l s

  answer-Ended :
      (w : World) (x : Result (Text × Option Text) × World)
      → Ended w x
      → Ended w (continue (λ a. pure (answer_of h c a)) x.0 x.1)
  unfolding pure
  answer-Ended w (ok a, w') k = record { ends = λ e. cc e; kept = k.kept }
  answer-Ended w (panics p, w') k = record { ends = λ e. k.ends cc; kept = k.kept }

  -- ExecuteTemplate with its include counted already
  looked_up-Ended :
      (name : Text) (v : Value) (msg : Answer) (o : Option Template) (w w₁ : World)
      → lookup_template g.templates name ≡ o
      → Ready g r w.inner
      → included_count name w.inner.included ≤ recursion_max_nums
      → w₁.inner.group ≡ w.inner.group
      → w₁.inner.included ≡ set_key name (included_count name w.inner.included + 1) w.inner.included
      → Ended w₁ (on_option o (pure msg) (λ t. execute h c t v >>= λ a. pure (answer_of h c a)) w₁)
  unfolding pure ◌>>=◌
  looked_up-Ended name v msg none w w₁ found ready l e k = record {
    ends = λ e. cc e;
    kept = Kept-refl w₁.inner;
  }
  looked_up-Ended name v msg (some t) w w₁ found ready l e k =
      let (less, next) = included-Ready name t v w w₁ ready found l e k in
      answer-Ended w₁ (execute h c t v w₁) (
        execute-Ended h g (r - 1) c t v w₁
          (run_template-Ends t v (r - 1) less (λ root q. sized name t root found q)) next)

  -- The count goes back, unless the include panicked.
  left-Ended :
      (name : Text) (w w₁ : World) (x : Result Answer × World)
      → w₁.inner.group ≡ w.inner.group
      → w₁.inner.depth ≡ w.inner.depth
      → w₁.inner.included ≡ set_key name (included_count name w.inner.included + 1) w.inner.included
      → Ended w₁ x
      → Ended w (continue (λ a. leave_include h c name >>= λ _. pure a) x.0 x.1)
  unfolding pure ◌>>=◌ leave_include update
  left-Ended name w w₁ (ok a, w') e f k p = record {
    ends = λ q. cc q;
    kept = record {
      group = p.kept.group ∙ e;
      depth = p.kept.depth ∙ f;
      included =
          Grows-back name w.inner.included w'.inner.included
            (subst (λ m. Grows m w'.inner.included) k p.kept.included);
    };
  }
  left-Ended name w w₁ (panics q, w') e f k p = record {
    ends = λ z. p.ends cc;
    kept = record {
      group = p.kept.group ∙ e;
      depth = p.kept.depth ∙ f;
      included = λ j. omega (
        arith,
        Grows-set name (included_count name w.inner.included + 1) w.inner.included (omega arith) j,
        subst (λ m. Grows m w'.inner.included) k p.kept.included j,
      );
    };
  }

  counted-Ended :
      (name : Text) (v : Value) (w : World)
      → Ready g r w.inner
      → included_count name w.inner.included ≤ recursion_max_nums
      → Ended w (
          (set_included h c name (included_count name w.inner.included + 1) >>= λ _.
          (execute_named h c name v >>= λ a. (leave_include h c name >>= λ _. pure a)))
            w)
  unfolding ◌>>=◌ set_included update execute_named inner
  counted-Ended name v w ready l =
      let w₁ : World = record w {
        inner = record w.inner {
          included = set_key name (included_count name w.inner.included + 1) w.inner.included;
        };
      } in
      left-Ended name w w₁ (execute_named h c name v w₁) refl refl refl (
        looked_up-Ended name v _ (lookup_template w.inner.group.templates name) w w₁
          (ap (λ x. lookup_template x.templates name) (sym ready.group)) ready l refl refl)

  include-Ends :
      (name : Text) (v : Value) → Ends g r Answer (include_fun h c name v) (include_fun h c name v)
  unfolding include_fun included_count pure
  include-Ends name v = inner-Ends _ _ λ w ready.
      elim (Bool-cases (ltb recursion_max_nums (included_count name w.inner.included))) [
        | inl e ↦ rw e (record { ends = λ q. cc q; kept = Kept-refl w.inner })
        | inr e ↦ rw e (counted-Ended name v w ready (ground arith))
      ]

  tpl-Ends : (argv : List Value) → Ends g r Answer (tpl_fun h argv) (tpl_fun h argv)
  unfolding tpl_fun pure ◌>>=◌ inner raise
  tpl-Ends argv w ready = elim (Option-cases (h.tpl w.inner.group.templates argv)) [
    | inl n ↦ absurd (returns w.inner.group.templates argv n)
    | inr (a, e) ↦ rw e (record { ends = λ q. cc q; kept = Kept-refl w.inner })
  ]

  pub jumps-Ends : JumpsRelated h (halting_logic g r h) d c c
  jumps-Ends = record {
    include = λ name v. Ends-Evals g r h _ _ _ (include-Ends name v);
    tpl = λ argv. Ends-Evals g r h _ _ _ (tpl-Ends argv);
    template = λ n dot name pipe fits. Ends-Walks g r h _ _ _ (template-Ends n dot name pipe fits);
  }
