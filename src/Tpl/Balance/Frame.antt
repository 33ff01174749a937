-- ===== src/Tpl/Balance/Frame.antt =====
-- The part of a recorder that a render must leave as it found it: its settings, its depth and its
-- guards, tools/helmprov/tpl/prov.go.
use cartograph_nvim.Base.{
  ℕ, ◌+◌, ◌-◌, Text, Bool, ◌≡◌, refl, ap, none, some, Option, Option-cases, inl, inr, List, [], ◌∷◌,
  arith,
}
use cartograph_nvim.Tpl.Syntax.{Node}
use cartograph_nvim.Tpl.Value.{Value}
use cartograph_nvim.Tpl.Host.{Host, Template}
use cartograph_nvim.Tpl.Record.{Recorder}
use cartograph_nvim.Tpl.World.{
  World, Result, ok, panics, exec_error, runtime_error, walk_break, walk_continue, out_of_fuel,
}
use cartograph_nvim.Tpl.Prov.{record_read, record_with}
use cartograph_nvim.Tpl.Brackets.{
  write, close_span, open_action, close_action, walk_text, enter, leave, leave_recorder, enter_arm,
  leave_arm, pop_guard, guard_error,
}

pub record Frame : Type 0 where
  pub guards : List Text
  pub depth : ℕ
  pub branches : Bool
  pub symbolic : Bool
  pub dots_on : Bool

abbrev pub frame_of : Recorder → Frame
frame_of r = record {
  guards = r.guards;
  depth = r.depth;
  branches = r.branches;
  symbolic = r.symbolic;
  dots_on = r.dots_on;
}

abbrev pub frame : Option Recorder → Option Frame
frame none = none
frame (some r) = some (frame_of r)

-- The frame of a world's recorder, if it has one.
abbrev pub frame_in : World → Option Frame
frame_in w = frame w.trace.rec

abbrev pub change : (Frame → Frame) → Option Frame → Option Frame
change f none = none
change f (some x) = some (f x)

abbrev up : Frame → Frame
up x = record x { depth = x.depth + 1 }

abbrev down : Frame → Frame
down x = record x { depth = x.depth - 1 }

abbrev unguard : Frame → Frame
unguard x = record x { guards = pop_guard x.guards }

down-up : (o : Option Frame) → change down (change up o) ≡ o
down-up none = refl
down-up (some x) =
    let e : x.depth + 1 - 1 ≡ x.depth = omega arith in ap (λ d. some (record x { depth = d })) e

entered : (t : Template) (v : Value) (w : World) → frame_in (enter t v w) ≡ change up (frame_in w)
unfolding enter
entered t v w = elim (Option-cases w.trace.rec) [ inl e ↦ rw e refl | inr (r, e) ↦ rw e refl ]

left : (t : Template) (w w' : World) → frame_in (leave t w w') ≡ change down (frame_in w')
unfolding leave leave_recorder
left t w w' = ground arith

-- What comes back from an execution one level down is back on its level.
pub frame-leave :
    (t : Template) (v : Value) (w w' : World)
    → frame_in w' ≡ frame_in (enter t v w)
    → frame_in (leave t w w') ≡ frame_in w
frame-leave t v w w' e =
    cc (left t w w', ap (change down) e, ap (change down) (entered t v w), down-up (frame_in w))

arm_left :
    (h : Host) (guard : Text) (r : Result (Unit {0})) (w w' : World)
    → frame_in (leave_arm h guard r w w') ≡ change unguard (frame_in w')
unfolding leave_arm
arm_left h guard r w w' = ground arith

-- What comes back from an untaken arm has its guard popped.
pub frame-leave_arm :
    (h : Host) (guard : Text) (q : Recorder) (r : Result (Unit {0})) (w w' : World)
    → frame_in w' ≡ frame_in (enter_arm guard q w)
    → frame_in (leave_arm h guard r w w') ≡ some (frame_of q)
unfolding enter_arm
frame-leave_arm h guard q r w w' e = cc (arm_left h guard r w w', ap (change unguard) e)

pub frame-close_action :
    (h : Host) (n : Node) (w : World) (x : Result Text × World)
    → frame_in (close_action h n w x).1 ≡ frame_in x.1
unfolding close_action write close_span
frame-close_action h n w (ok text, w') = ground arith
frame-close_action h n w (panics p, w') = refl

pub frame-open_action :
    (h : Host) (n : Node) (w : World) → frame_in (open_action h n w) ≡ frame_in w
unfolding open_action
frame-open_action h n w = ground arith

pub frame-walk_text :
    (h : Host) (n : Node) (text : Text) (w : World) → frame_in (walk_text h n text w).1 ≡ frame_in w
unfolding walk_text write close_span
frame-walk_text h n text w = ground arith

pub frame-record_read :
    (h : Host) (n : Node) (path : List Text) (w : World)
    → frame_in (record_read h n path w).1 ≡ frame_in w
unfolding record_read
frame-record_read h n [] w = refl
frame-record_read h n (x ∷ xs) w = ground arith

-- A change of the recorder that keeps its frame.
pub frame-record_with :
    (f : World → Recorder → Recorder) (w : World)
    → ((r : Recorder) → frame_of (f w r) ≡ frame_of r)
    → frame_in (record_with f w).1 ≡ frame_in w
unfolding record_with
frame-record_with f w k = elim (Option-cases w.trace.rec) [
  | inl e ↦ rw e (ap frame e)
  | inr (r, e) ↦ rw e (ap some (k r))
]

pub frame-guard_error :
    (h : Host) (n : Node) (x : Result (Unit {0}) × World)
    → frame_in (guard_error h n x).1 ≡ frame_in x.1
unfolding guard_error write
frame-guard_error h n (ok u, w) = refl
frame-guard_error h n (panics (exec_error name e), w) = ground arith
frame-guard_error h n (panics (runtime_error e), w) = refl
frame-guard_error h n (panics walk_break, w) = refl
frame-guard_error h n (panics walk_continue, w) = refl
frame-guard_error h n (panics out_of_fuel, w) = refl
