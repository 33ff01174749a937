-- ===== src/Tpl/Noting/Hooks.antt =====
-- Properties of the recorder that every recording hook keeps hold after every execution,
-- tools/helmprov/tpl/prov.go: the hooks
-- of a text node and of an action, reads, dots and arms.
use cartograph_nvim.Base.{
  Text, codes, Bool, true, false, ◌≡◌, refl, length, Option-cases, inl, inr, List, [], ◌∷◌,
  if◌then◌else◌, ◌&&◌, ◌==◌,
}
use mathlib.Core.Path.{subst}
use cartograph_nvim.Tpl.Syntax.{Node, Pipe}
use cartograph_nvim.Tpl.Value.{Value}
use cartograph_nvim.Tpl.Host.{Host}
use cartograph_nvim.Tpl.Record.{Recorder, Span}
use cartograph_nvim.Tpl.World.{World, Result, ok, panics, M, continue, ◌>>=◌}
use cartograph_nvim.Tpl.Prov.{record_read, record_with, record_dot, arm}
use cartograph_nvim.Tpl.Brackets.{
  write, new_span, close_span, walk_text, walk_action, open_action, close_action, action_span,
}
use cartograph_nvim.Tpl.Noting.{RecorderLaws, On, Noted}

module _ (P : Recorder → Type 0) (l : RecorderLaws P) where
  continue-On :
      {A B : Type 0} (f : A → M B) (x : Result A × World)
      → ((a : A) → Noted P B (f a) (f a))
      → On P x.1.trace.rec
      → On P (continue f x.0 x.1).1.trace.rec
  continue-On f (ok a, w) p i = p a w i
  continue-On f (panics e, w) p i = i

  pub Noted-bind :
      (A B : Type 0) (m m' : M A) (f f' : A → M B)
      → Noted P A m m'
      → ((a : A) → Noted P B (f a) (f' a))
      → Noted P B (m >>= f) (m' >>= f')
  unfolding ◌>>=◌
  Noted-bind A B m m' f f' p q w i = continue-On f (m w) q (p w i)

  pub Noted-read :
      (h : Host) (n : Node) (path : List Text)
      → Noted P (Unit {0}) (record_read h n path) (record_read h n path)
  unfolding record_read
  Noted-read h n [] w i = i
  Noted-read h n (x ∷ xs) w i = elim (Option-cases w.trace.rec) [
    | inl c ↦ rw c i
    | inr (r, c) ↦ rw c (l.reads r _ _ (subst (λ o. On P o) c i))
  ]

  Noted-with :
      (f : World → Recorder → Recorder)
      → ((w : World) (r : Recorder) → P r → P (f w r))
      → Noted P (Unit {0}) (record_with f) (record_with f)
  unfolding record_with
  Noted-with f p w i = elim (Option-cases w.trace.rec) [
    | inl c ↦ rw c i
    | inr (r, c) ↦ rw c (p w r (subst (λ o. On P o) c i))
  ]

  either : (b : Bool) (r q : Recorder) → (b ≡ true → P r) → P q → P (if b then r else q)
  either true r q p i = p refl
  either false r q p i = i

  pub Noted-dot :
      (h : Host) (n : Node) (v : Value) → Noted P (Unit {0}) (record_dot h n v) (record_dot h n v)
  unfolding record_dot
  Noted-dot h n v =
      Noted-with _ λ w r i. either (r.dots_on && (length r.guards == 0)) _ r (λ c. l.dots r _ _ i) i

  pub Noted-arm :
      (h : Host) (n : Node) (kind : Text) (pipe : Pipe) (taken : Text) (b : Bool) (value : Text)
      → Noted P (Unit {0}) (arm h n kind pipe taken b value) (arm h n kind pipe taken b value)
  unfolding arm
  Noted-arm h n kind pipe taken b value =
      Noted-with _ λ w r i. either r.branches _ r (λ c. l.arms r _ c refl i) i

  On-close_span : (s : Span) (w : World) → On P w.trace.rec → On P (close_span s w).trace.rec
  unfolding close_span
  On-close_span s w i = elim (Option-cases w.trace.count) [ inl c ↦ rw c i | inr (n, c) ↦ rw c i ]

  pub Noted-text :
      (h : Host) (n : Node) (text : Text)
      → Noted P (Unit {0}) (walk_text h n text) (walk_text h n text)
  unfolding walk_text write
  Noted-text h n text w i = On-close_span (new_span h n (codes "text") w) (write text w) i

  On-close_action :
      (h : Host) (n : Node) (w : World) (x : Result Text × World)
      → On P x.1.trace.rec
      → On P (close_action h n w x).1.trace.rec
  unfolding close_action write
  On-close_action h n w (panics e, w') i = i
  On-close_action h n w (ok text, w') i =
      let closed = On-close_span (action_span h n w w'.trace.cur) (write text w') i in
      elim (Option-cases w.trace.count) [ inl c ↦ rw c i | inr (k, c) ↦ rw c closed ]

  On-open_action :
      (h : Host) (n : Node) (w : World) → On P w.trace.rec → On P (open_action h n w).trace.rec
  unfolding open_action
  On-open_action h n w i = elim (Option-cases w.trace.count) [
    | inl c ↦ rw c i
    | inr (k, c) ↦ rw c i
  ]

  pub Noted-action :
      (h : Host) (n : Node) (m m' : M Text)
      → Noted P Text m m'
      → Noted P (Unit {0}) (walk_action h n m) (walk_action h n m')
  unfolding walk_action
  Noted-action h n m m' p w i =
      On-close_action h n w (m (open_action h n w)) (p (open_action h n w) (On-open_action h n w i))
