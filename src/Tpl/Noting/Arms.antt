-- ===== src/Tpl/Noting/Arms.antt =====
-- Properties of the recorder that every recording hook keeps hold after every execution,
-- tools/helmprov/tpl/prov.go: untaken
-- arms and the guard of a symbolic render.
use cartograph_nvim.Base.{
  Text, ◌≡◌, refl, none, some, Option, Option-cases, Bool-cases, inl, inr, ◌&&◌,
}
use mathlib.Core.Path.{subst}
use cartograph_nvim.Tpl.Syntax.{Node, Pipe}
use cartograph_nvim.Tpl.Host.{Host}
use cartograph_nvim.Tpl.Record.{Recorder}
use cartograph_nvim.Tpl.World.{
  World, Result, ok, panics, exec_error, runtime_error, walk_break, walk_continue, out_of_fuel, M,
}
use cartograph_nvim.Tpl.Prov.{is_symbolic}
use cartograph_nvim.Tpl.Brackets.{
  write, explore_with, explore_maybe, explore_under, enter_arm, leave_arm, explores, guard_text,
  guard_error, sym_guard, unguarded,
}
use cartograph_nvim.Tpl.Noting.{RecorderLaws, On, Noted}

module _ (P : Recorder → Type 0) (l : RecorderLaws P) where
  On-leave_arm :
      (h : Host) (guard : Text) (r : Result (Unit {0})) (w w' : World)
      → On P w'.trace.rec
      → On P (leave_arm h guard r w w').trace.rec
  unfolding leave_arm
  On-leave_arm h guard r w w' i = elim (Option-cases w'.trace.rec) [
    | inl c ↦ rw c tt
    | inr (q, c) ↦ rw c (l.explored _ _ (l.left q (subst (λ o. On P o) c i)))
  ]

  On-maybe :
      (h : Host) (guard : Text) (o : Option Recorder) (m : M (Unit {0})) (w : World)
      → Noted P (Unit {0}) m m
      → w.trace.rec ≡ o
      → On P w.trace.rec
      → On P (explore_maybe h guard o m w).1.trace.rec
  unfolding explore_maybe
  On-maybe h guard none m w p e i = i
  On-maybe h guard (some r) m w p e i = elim (Bool-cases (explores guard r)) [
    | inl c ↦
        let x = m (enter_arm guard r w) in
        let inside : On P (enter_arm guard r w).trace.rec =
          unfold enter_arm in l.entered r guard c (subst (λ o. On P o) e i) in
        rw (explore_under, c) (On-leave_arm h guard x.0 w x.1 (p (enter_arm guard r w) inside))
    | inr c ↦ rw (explore_under, c) i
  ]

  pub Noted-explore :
      (h : Host) (n : Node) (kind : Text) (pipe : Pipe) (which : Text) (m m' : M (Unit {0}))
      → Noted P (Unit {0}) m m'
      → Noted P
          (Unit {0})
          (explore_with h n kind pipe which m)
          (explore_with h n kind pipe which m')
  unfolding explore_with
  Noted-explore h n kind pipe which m m' p w i =
      On-maybe h (guard_text h w.inner n kind pipe which) w.trace.rec m w p refl i

  On-guard_error :
      (h : Host) (n : Node) (x : Result (Unit {0}) × World)
      → On P x.1.trace.rec
      → On P (guard_error h n x).1.trace.rec
  unfolding guard_error write
  On-guard_error h n (ok u, w) i = i
  On-guard_error h n (panics (runtime_error e), w) i = i
  On-guard_error h n (panics walk_break, w) i = i
  On-guard_error h n (panics walk_continue, w) i = i
  On-guard_error h n (panics out_of_fuel, w) i = i
  On-guard_error h n (panics (exec_error name e), w) i = elim (Option-cases w.trace.rec) [
    | inl c ↦ rw c tt
    | inr (r, c) ↦ rw c (l.explored r _ (subst (λ o. On P o) c i))
  ]

  pub Noted-guard :
      (h : Host) (n : Node) (m m' : M (Unit {0}))
      → Noted P (Unit {0}) m m'
      → Noted P (Unit {0}) (sym_guard h n m) (sym_guard h n m')
  unfolding sym_guard
  Noted-guard h n m m' p w i = elim (Bool-cases (is_symbolic w.trace && unguarded w.trace)) [
    | inl e ↦ rw e (On-guard_error h n (m w) (p w i))
    | inr e ↦ rw e (p w i)
  ]
