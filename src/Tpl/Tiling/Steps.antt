-- ===== src/Tpl/Tiling/Steps.antt =====
-- Each step keeps the tiling.
use cartograph_nvim.Base.{
  ℕ, Text, Bool, false, ◌≡◌, refl, ap, inl, inr, none, some, Option, codes, List, [], ◌∷◌, arith,
  Bool-cases, is_some,
}
use cartograph_nvim.Tpl.Syntax.{Node, Pipe}
use cartograph_nvim.Tpl.Value.{Value}
use cartograph_nvim.Tpl.Host.{Host, Template}
use cartograph_nvim.Tpl.Record.{Recorder}
use cartograph_nvim.Tpl.World.{
  World, Result, ok, panics, M, continue, pure, raise, ◌>>=◌, inner, update,
}
use cartograph_nvim.Tpl.State.{leave_popping, popping, catch_break, catch_continue}
use cartograph_nvim.Tpl.Prov.{
  is_symbolic, symbolic, exploring, add_value, record_read, record_with, record_dot, arm,
}
use cartograph_nvim.Tpl.Brackets
use cartograph_nvim.Tpl.Call.{safe_call}
use cartograph_nvim.Tpl.Logic.{Logic, Uniform}
use cartograph_nvim.Tpl.Tiling.Spans.{
  Still, Tiling, Still-refl, Still-trans, Tiling-refl, Tiling-trans, Tiling-Still, same-Tiling,
  write-Tiling,
}

abbrev pub Evals : (A : Type 0) → M A → M A → Type 0
Evals A m m' = (w : World) → is_symbolic w.trace ≡ false → Still w (m w).1

abbrev pub Walks : (A : Type 0) → M A → M A → Type 0
Walks A m m' = (w : World) → is_symbolic w.trace ≡ false → Tiling w (m w).1

evals_bind :
    (A B : Type 0) (m m' : M A) (f f' : A → M B)
    → Evals A m m'
    → ((a : A) → Evals B (f a) (f' a))
    → Evals B (m >>= f) (m' >>= f')
unfolding ◌>>=◌
evals_bind A B m m' f f' p q w c = let s = p w c in Still-trans _ _ _ s (next (m w) s.concrete)
  where
    next : (x : Result A × World) → is_symbolic x.1.trace ≡ false → Still x.1 (continue f x.0 x.1).1
    next (ok a, w') c' = q a w' c'
    next (panics e, w') c' = Still-refl w' c'

walks_bind :
    (A B : Type 0) (m m' : M A) (f f' : A → M B)
    → Walks A m m'
    → ((a : A) → Walks B (f a) (f' a))
    → Walks B (m >>= f) (m' >>= f')
unfolding ◌>>=◌
walks_bind A B m m' f f' p q w c = let s = p w c in Tiling-trans _ _ _ s (next (m w) s.concrete)
  where
    next :
        (x : Result A × World) → is_symbolic x.1.trace ≡ false → Tiling x.1 (continue f x.0 x.1).1
    next (ok a, w') c' = q a w' c'
    next (panics e, w') c' = Tiling-refl w' c'

evals_read :
    (h : Host) (n : Node) (path : List Text)
    → Evals (Unit {0}) (record_read h n path) (record_read h n path)
unfolding record_read add_value is_symbolic
evals_read h n [] w c = Still-refl w c
evals_read h n (x ∷ xs) w c = ground arith

evals_dot :
    (h : Host) (n : Node) (v : Value) → Evals (Unit {0}) (record_dot h n v) (record_dot h n v)
unfolding record_dot record_with is_symbolic
evals_dot h n v w c = ground arith

evals_arm :
    (h : Host) (n : Node) (kind : Text) (pipe : Pipe) (taken : Text) (b : Bool) (value : Text)
    → Evals (Unit {0}) (arm h n kind pipe taken b value) (arm h n kind pipe taken b value)
unfolding arm record_with is_symbolic
evals_arm h n kind pipe taken b value w c = ground arith

enter-concrete :
    (t : Template) (v : Value) (w : World)
    → is_symbolic w.trace ≡ false
    → is_symbolic (Brackets.enter t v w).trace ≡ false
unfolding Brackets.enter is_symbolic
enter-concrete t v w c = ground arith

enter-rec :
    (t : Template) (v : Value) (w : World)
    → is_some (Brackets.enter t v w).trace.rec ≡ is_some w.trace.rec
unfolding Brackets.enter
enter-rec t v w = ground arith

leave-Still :
    (t : Template) (w w' : World)
    → is_symbolic w'.trace ≡ false
    → is_some w'.trace.rec ≡ is_some w.trace.rec
    → Still w (Brackets.leave t w w')
unfolding Brackets.leave Brackets.leave_recorder is_symbolic
leave-Still t w w' c r = ground arith

evals_execute :
    (t : Template) (v : Value) (m m' : M (Unit {0}))
    → Walks (Unit {0}) m m'
    → Evals (Text × Option Text) (Brackets.execute_with t v m) (Brackets.execute_with t v m')
unfolding Brackets.execute_with
evals_execute t v m m' p w c =
    let k = p (Brackets.enter t v w) (enter-concrete t v w c) in
    leave-Still t w (m (Brackets.enter t v w)).1 k.concrete (cc (k.rec, enter-rec t v w))

walks_text :
    (h : Host) (n : Node) (text : Text)
    → Walks (Unit {0}) (Brackets.walk_text h n text) (Brackets.walk_text h n text)
unfolding Brackets.walk_text
walks_text h n text w c =
    write-Tiling w text (Brackets.new_span h n (codes "text") w) c
      (unfold Brackets.new_span Brackets.counted in λ k e. rw e)

open-Tiling :
    (h : Host) (n : Node) (w : World)
    → is_symbolic w.trace ≡ false
    → Tiling w (Brackets.open_action h n w)
unfolding Brackets.open_action is_symbolic
open-Tiling h n w c =
    same-Tiling w (Brackets.open_action h n w) (ground arith) (ground arith) (ground arith)
      (ground arith) (ground arith)

-- The span that an open action closes starts at the count.
open-start :
    (h : Host) (n : Node) (w w' : World) (k : ℕ)
    → Still (Brackets.open_action h n w) w'
    → w'.trace.count ≡ some k
    → (Brackets.action_span h n w w'.trace.cur).start ≡ k
unfolding Brackets.open_action Brackets.action_span Brackets.new_span Brackets.counted
open-start h n w w' k s e = ground (arith, s.cur, s.count)

-- Leaving an action only sets the current span back.
closed-same :
    (h : Host) (n : Node) (w : World) (text : Text) (w' : World)
    → Still (Brackets.open_action h n w) w'
    → let u =
        Brackets.close_span (Brackets.action_span h n w w'.trace.cur) (Brackets.write text w') in
      let v = (Brackets.close_action h n w (ok text, w')).1 in
      (v.out ≡ u.out)
      × (v.trace.count ≡ u.trace.count)
      × (v.trace.spans ≡ u.trace.spans)
      × (v.trace.rec ≡ u.trace.rec)
unfolding Brackets.close_action Brackets.close_span Brackets.write Brackets.open_action
closed-same h n w text w' s = let e = s.count in ground arith

close-Tiling :
    (h : Host) (n : Node) (w : World) (x : Result Text × World)
    → is_symbolic w.trace ≡ false
    → Still (Brackets.open_action h n w) x.1
    → Tiling w (Brackets.close_action h n w x).1
close-Tiling h n w (panics p, w') c s =
    unfold Brackets.close_action in Tiling-trans w _ w' (open-Tiling h n w c) (Tiling-Still _ w' s)
close-Tiling h n w (ok text, w') c s =
    let sp = Brackets.action_span h n w w'.trace.cur in
    let u = Brackets.close_span sp (Brackets.write text w') in
    let v = (Brackets.close_action h n w (ok text, w')).1 in
    let wrote = write-Tiling w' text sp s.concrete (λ k e. open-start h n w w' k s e) in
    let (a, b, d, r) = closed-same h n w text w' s in
    let left =
      same-Tiling u v a b d (ap is_some r) (unfold is_symbolic in cc (r, wrote.concrete)) in
    Tiling-trans w _ v (open-Tiling h n w c)
      (Tiling-trans _ w' v (Tiling-Still _ w' s) (Tiling-trans w' u v wrote left))

walks_action :
    (h : Host) (n : Node) (m m' : M Text)
    → Evals Text m m'
    → Walks (Unit {0}) (Brackets.walk_action h n m) (Brackets.walk_action h n m')
unfolding Brackets.walk_action
walks_action h n m m' p w c =
    let w₁ = Brackets.open_action h n w in
    close-Tiling h n w (m w₁) c (p w₁ (open-Tiling h n w c).concrete)

walks_invoke :
    (t : Template) (v : Value) (m m' : M (Unit {0}))
    → Walks (Unit {0}) m m'
    → Walks (Unit {0}) (Brackets.invoke_with t v m) (Brackets.invoke_with t v m')
unfolding Brackets.invoke_with Brackets.leave_invoked Brackets.enter_invoked is_symbolic
walks_invoke t v m m' p w c =
    let k = p (Brackets.enter_invoked t v w) c in
    record {
      counts = k.counts;
      uncounted = k.uncounted;
      rec = k.rec;
      concrete = k.concrete;
      tiled = k.tiled;
    }

walks_popping : (A : Type 0) (m m' : M A) → Walks A m m' → Walks A (popping m) (popping m')
unfolding popping leave_popping is_symbolic
walks_popping A m m' p w c =
    let k = p w c in
    record {
      counts = k.counts;
      uncounted = k.uncounted;
      rec = k.rec;
      concrete = k.concrete;
      tiled = k.tiled;
    }

walks_guard :
    (h : Host) (n : Node) (m m' : M (Unit {0}))
    → Walks (Unit {0}) m m'
    → Walks (Unit {0}) (Brackets.sym_guard h n m) (Brackets.sym_guard h n m')
unfolding Brackets.sym_guard
walks_guard h n m m' p w c = rw c (p w c)

-- An explored arm leaves the file's output and spans as they are.
leave_arm-Tiling :
    (h : Host) (guard : Text) (r : Recorder) (q : Result (Unit {0})) (w w' : World)
    → w.trace.rec ≡ some r
    → Tiling (Brackets.enter_arm guard r w) w'
    → Tiling w (Brackets.leave_arm h guard q w w')
unfolding Brackets.leave_arm is_symbolic
leave_arm-Tiling h guard r q w w' e k =
    let spans : w'.trace.spans ≡ w.trace.spans = unfold Brackets.enter_arm in k.uncounted refl in
    same-Tiling w (Brackets.leave_arm h guard q w w') refl refl spans
      (unfold Brackets.enter_arm in ground (arith, k.rec)) (ground (arith, k.concrete))

explore_under-Tiling :
    (h : Host) (guard : Text) (o : Option Recorder) (m m' : M (Unit {0})) (w : World)
    → Walks (Unit {0}) m m'
    → w.trace.rec ≡ o
    → is_symbolic w.trace ≡ false
    → Tiling w (Brackets.explore_maybe h guard o m w).1
unfolding Brackets.explore_maybe Brackets.explore_under Brackets.finish_arm
explore_under-Tiling h guard none m m' w p e c = Tiling-refl w c
explore_under-Tiling h guard (some r) m m' w p e c =
    let inside : is_symbolic (Brackets.enter_arm guard r w).trace ≡ false =
      unfold Brackets.enter_arm is_symbolic in ground arith in
    let x = m (Brackets.enter_arm guard r w) in
    let q = leave_arm-Tiling h guard r x.0 w x.1 e (p (Brackets.enter_arm guard r w) inside) in
    elim (Bool-cases (Brackets.explores guard r)) [
      | inl t ↦ rw t q
      | inr f ↦ rw f (Tiling-refl w c)
    ]

walks_explore :
    (h : Host) (n : Node) (kind : Text) (pipe : Pipe) (which : Text) (m m' : M (Unit {0}))
    → Walks (Unit {0}) m m'
    → Walks
        (Unit {0})
        (Brackets.explore_with h n kind pipe which m)
        (Brackets.explore_with h n kind pipe which m')
unfolding Brackets.explore_with
walks_explore h n kind pipe which m m' p w c = explore_under-Tiling h _ w.trace.rec m m' w p refl c

pub tiling_logic : (h : Host) → Logic h
unfolding pure raise inner update symbolic exploring safe_call catch_break catch_continue
    is_symbolic
tiling_logic h = record {
  Evals = Evals;
  Walks = Walks;
  walks = λ A m m' p w c. Tiling-Still w (m w).1 (p w c);
  evals_pure = λ A a w c. Still-refl w c;
  evals_raise = λ A p go w c. Still-refl w c;
  evals_bind = evals_bind;
  walks_bind = walks_bind;
  evals_inner = λ w c. Still-refl w c;
  evals_update = λ f mild w c. record {
    cur = refl;
    out = refl;
    count = refl;
    spans = refl;
    rec = refl;
    concrete = c;
  };
  evals_symbolic = λ w c. Still-refl w c;
  evals_exploring = λ w c. Still-refl w c;
  evals_read = evals_read h;
  evals_dot = evals_dot h;
  evals_arm = evals_arm h;
  evals_safe = λ m m' p w c. p w c;
  walks_text = walks_text h;
  walks_action = walks_action h;
  walks_explore = walks_explore h;
  walks_guard = walks_guard h;
  walks_popping = walks_popping;
  walks_break = λ m m' p w c. p w c;
  walks_continue = λ m m' p w c. p w c;
}

pub tiling-Uniform : (h : Host) → Uniform h (tiling_logic h)
unfolding tiling_logic raise update
tiling-Uniform h = record {
  evals_out_of_fuel = λ A w c. Still-refl w c;
  evals_count = λ f w c. record {
    cur = refl;
    out = refl;
    count = refl;
    spans = refl;
    rec = refl;
    concrete = c;
  };
  evals_execute = evals_execute;
  walks_invoke = walks_invoke;
}

-- What the logic says of a walk.
pub tiling_logic-Walks :
    (h : Host) (A : Type 0) (m m' : M A) → (tiling_logic h).Walks A m m' → Walks A m m'
unfolding tiling_logic
tiling_logic-Walks h A m m' p = p
