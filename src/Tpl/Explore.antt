-- ===== src/Tpl/Explore.antt =====
-- The exploration of an untaken arm, `explore` of tools/helmprov/tpl/prov.go, leaves the execution
-- around it alone.
use cartograph_nvim.Base.{Text, ◌≡◌, refl, none, some, Option, Bool-cases, inl, inr, ◌⊎◌}
use cartograph_nvim.Tpl.Syntax.{Node, Pipe}
use cartograph_nvim.Tpl.Host.{Host}
use cartograph_nvim.Tpl.Record.{Recorder}
use cartograph_nvim.Tpl.World.{
  World, Result, ok, panics, exec_error, runtime_error, walk_break, walk_continue, out_of_fuel, M,
}
use cartograph_nvim.Tpl.Brackets.{
  explore_with, explore_maybe, explore_under, finish_arm, leave_arm, enter_arm, explores,
  guard_text, swallow,
}

-- What the taken arms of the same template go on with: the text, the variables, the current node, the
-- byte count and the current span.
pub record Untouched (w w' : World) : Type 0 where
  pub out : w'.out ≡ w.out
  pub vars : w'.inner.vars ≡ w.inner.vars
  pub node : w'.inner.node ≡ w.inner.node
  pub count : w'.trace.count ≡ w.trace.count
  pub cur : w'.trace.cur ≡ w.trace.cur

-- Neither an error nor a break or a continue gets out.
abbrev pub IsContained : Result (Unit {0}) → Type 0
IsContained r = (r ≡ ok tt) ⊎ (r ≡ panics out_of_fuel)

swallow-IsContained : (r : Result (Unit {0})) → IsContained (swallow r)
swallow-IsContained (ok u) = inl refl
swallow-IsContained (panics (exec_error name e)) = inl refl
swallow-IsContained (panics (runtime_error e)) = inl refl
swallow-IsContained (panics walk_break) = inl refl
swallow-IsContained (panics walk_continue) = inl refl
swallow-IsContained (panics out_of_fuel) = inr refl

Untouched-refl : (w : World) → Untouched w w
Untouched-refl w = record { out = refl; vars = refl; node = refl; count = refl; cur = refl }

finish_arm-Untouched :
    (h : Host) (guard : Text) (w : World) (x : Result (Unit {0}) × World)
    → IsContained (finish_arm h guard w x).0 × Untouched w (finish_arm h guard w x).1
unfolding finish_arm leave_arm
finish_arm-Untouched h guard w (r, w') = (
  swallow-IsContained r,
  record { out = refl; vars = refl; node = refl; count = refl; cur = refl },
)

maybe-Untouched :
    (h : Host) (guard : Text) (o : Option Recorder) (m : M (Unit {0})) (w : World)
    → IsContained (explore_maybe h guard o m w).0 × Untouched w (explore_maybe h guard o m w).1
unfolding explore_maybe
maybe-Untouched h guard none m w = (inl refl, Untouched-refl w)
maybe-Untouched h guard (some r) m w = elim (Bool-cases (explores guard r)) [
  | inl c ↦ rw (explore_under, c) (finish_arm-Untouched h guard w (m (enter_arm guard r w)))
  | inr c ↦ rw (explore_under, c) (inl refl, Untouched-refl w)
]

-- Whatever an untaken arm does, which is any computation here: its exploration returns normally unless
-- fuel runs out, and the text written so far, the variables, the current node, the byte count and the
-- current span are as before it.
pub explore-Untouched :
    (h : Host) (n : Node) (kind : Text) (pipe : Pipe) (which : Text) (m : M (Unit {0})) (w : World)
    → IsContained (explore_with h n kind pipe which m w).0
      × Untouched w (explore_with h n kind pipe which m w).1
unfolding explore_with
explore-Untouched h n kind pipe which m w =
    maybe-Untouched h (guard_text h w.inner n kind pipe which) w.trace.rec m w
