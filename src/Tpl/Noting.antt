-- ===== src/Tpl/Noting.antt =====
-- Properties of the recorder that every recording hook keeps hold after every execution,
-- tools/helmprov/tpl/prov.go.
pub mod Hooks
pub mod Arms
pub mod Runs
pub mod Taken
pub mod Bounds
use cartograph_nvim.Base.{
  ℕ, ◌+◌, ◌-◌, Text, codes, Bool, true, false, ◌≡◌, refl, ltb, length, none, some, Option,
  Option-cases, Bool-cases, inl, inr, List, [], ◌∷◌, ◌++◌, arith, if◌then◌else◌, ◌&&◌, ◌==◌,
}
use mathlib.Core.Path.{subst}
use cartograph_nvim.Tpl.Syntax.{Node, Pipe}
use cartograph_nvim.Tpl.Value.{Value}
use cartograph_nvim.Tpl.Host.{Host, Template, Answer, set_key, lookup_key}
use cartograph_nvim.Tpl.Record.{Recorder, Span, File, Arm, Explored}
use cartograph_nvim.Tpl.World.{
  World, Result, ok, panics, exec_error, runtime_error, walk_break, walk_continue, out_of_fuel, M,
  continue, pure, raise, ◌>>=◌, inner, update,
}
use cartograph_nvim.Tpl.State.{leave_popping, popping, catch_break, catch_continue}
use cartograph_nvim.Tpl.Prov.{
  is_symbolic, symbolic, exploring, record_read, record_with, record_dot, arm, read_of, see_dot,
}
use cartograph_nvim.Tpl.Brackets.{
  write, new_span, close_span, walk_text, walk_action, open_action, close_action, action_span,
  execute_with, enter, leave, leave_recorder, invoke_with, enter_invoked, explore_with,
  explore_maybe, explore_under, enter_arm, leave_arm, explores, guard_text, guard_error, sym_guard,
  unguarded, pop_guard,
}
use cartograph_nvim.Tpl.Call.{safe_call}
use cartograph_nvim.Tpl.Run.{execute}
use cartograph_nvim.Tpl.Logic.{Logic, Uniform, execute-related}

-- What the hooks do to a recorder.
pub record RecorderLaws (P : Recorder → Type 0) : Type 0 where
  pub reads :
      (r : Recorder) (path place : Text)
      → P r
      → P (record r { reads = r.reads ++ read_of path place r ∷ [] })
  pub dots :
      (r : Recorder) (l t : Text)
      → P r
      → P (record r { dots = set_key l (see_dot t (lookup_key l r.dots)) r.dots })
  pub arms :
      (r : Recorder) (note : Arm)
      → r.branches ≡ true
      → note.untaken ≡ ltb 0 (length r.guards)
      → P r
      → P (record r { arms = r.arms ++ note ∷ [] })
  pub depth : (r : Recorder) (n : ℕ) → P r → P (record r { depth = n })
  pub files : (r : Recorder) (fs : List File) → P r → P (record r { files = fs })
  pub entered :
      (r : Recorder) (guard : Text)
      → explores guard r ≡ true
      → P r
      → P (record r { guards = guard ∷ r.guards })
  pub left : (r : Recorder) → P r → P (record r { guards = pop_guard r.guards })
  pub explored :
      (r : Recorder) (e : Explored) → P r → P (record r { explored = r.explored ++ e ∷ [] })

abbrev pub On : (Recorder → Type 0) → Option Recorder → Type 0
On P none = Unit {0}
On P (some r) = P r

-- Every step keeps what holds of an active recorder. A relation of two computations, as Logic asks,
-- although it is about the first only.
abbrev pub Noted : (Recorder → Type 0) → (A : Type 0) → M A → M A → Type 0
Noted P A m m' = (w : World) → On P w.trace.rec → On P (m w).1.trace.rec
