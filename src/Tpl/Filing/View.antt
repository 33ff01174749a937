-- ===== src/Tpl/Filing/View.antt =====
-- What the executions inside another one leave alone: the files of the recorder, its depth, and whether
-- bytes are counted, tools/helmprov/tpl/exec.go and prov.go.
use cartograph_nvim.Base.{
  ℕ, suc, Text, Bool, ◌≡◌, refl, ap, none, some, Option, Option-cases, inl, inr, List, [], ◌∷◌,
  arith, is_some,
}
use cartograph_nvim.Tpl.Syntax.{Node}
use cartograph_nvim.Tpl.Value.{Value}
use cartograph_nvim.Tpl.Host.{Host, Template}
use cartograph_nvim.Tpl.Record.{Recorder, File}
use cartograph_nvim.Tpl.World.{
  World, Result, ok, panics, exec_error, runtime_error, walk_break, walk_continue, out_of_fuel,
}
use cartograph_nvim.Tpl.Prov.{record_read}
use cartograph_nvim.Tpl.Brackets.{
  write, close_span, open_action, close_action, walk_text, enter, leave, leave_recorder, enter_arm,
  leave_arm, guard_error,
}

pub record View : Type 0 where
  pub files : Option (List File)
  pub depth : Option ℕ
  pub counts : Bool

abbrev files_of : Option Recorder → Option (List File)
files_of none = none
files_of (some r) = some r.files

abbrev depth_of : Option Recorder → Option ℕ
depth_of none = none
depth_of (some r) = some r.depth

unfoldable pub view : World → View
view w = record {
  files = files_of w.trace.rec;
  depth = depth_of w.trace.rec;
  counts = is_some w.trace.count;
}

-- An execution is inside another one.
abbrev pub IsInside : World → Type 0
IsInside w = (n : ℕ) × ((view w).depth ≡ some (suc n))

pub view-leave :
    (t : Template) (v : Value) (w w' : World)
    → IsInside w
    → view w' ≡ view (enter t v w)
    → view (leave t w w') ≡ view w
unfolding view enter leave leave_recorder
view-leave t v w w' (n, d) e =
    let f = ap (λ x. x.files) e in
    let k = ap (λ x. x.depth) e in
    let c = ap (λ x. x.counts) e in
    elim (Option-cases w.trace.rec) [
      | inl a ↦ ground arith
      | inr (r, a) ↦ elim (Option-cases w'.trace.rec) [
        | inl b ↦ ground arith
        | inr (q, b) ↦ ground arith
      ]
    ]

pub enter-IsInside : (t : Template) (v : Value) (w : World) → IsInside w → IsInside (enter t v w)
unfolding view enter
enter-IsInside t v w (n, d) = elim (Option-cases w.trace.rec) [
  | inl a ↦ ground arith
  | inr (r, a) ↦ (suc n, ground arith)
]

pub view-close_action :
    (h : Host) (n : Node) (w : World) (x : Result Text × World)
    → view (close_action h n w x).1 ≡ view x.1
unfolding view close_action write close_span
view-close_action h n w (ok text, w') = ground arith
view-close_action h n w (panics p, w') = refl

pub view-open_action : (h : Host) (n : Node) (w : World) → view (open_action h n w) ≡ view w
unfolding view open_action
view-open_action h n w = ground arith

pub view-walk_text :
    (h : Host) (n : Node) (text : Text) (w : World) → view (walk_text h n text w).1 ≡ view w
unfolding view walk_text write close_span
view-walk_text h n text w = ground arith

pub view-record_read :
    (h : Host) (n : Node) (path : List Text) (w : World) → view (record_read h n path w).1 ≡ view w
unfolding view record_read
view-record_read h n [] w = refl
view-record_read h n (x ∷ xs) w = ground arith

pub view-guard_error :
    (h : Host) (n : Node) (x : Result (Unit {0}) × World) → view (guard_error h n x).1 ≡ view x.1
unfolding view guard_error write
view-guard_error h n (ok u, w) = refl
view-guard_error h n (panics (exec_error name e), w) = ground arith
view-guard_error h n (panics (runtime_error e), w) = refl
view-guard_error h n (panics walk_break, w) = refl
view-guard_error h n (panics walk_continue, w) = refl
view-guard_error h n (panics out_of_fuel, w) = refl

-- The files and the depth of an untaken arm's world are those of the world around it.
pub view-leave_arm :
    (h : Host) (guard : Text) (q : Recorder) (r : Result (Unit {0})) (w w' : World)
    → w.trace.rec ≡ some q
    → view w' ≡ view (enter_arm guard q w)
    → view (leave_arm h guard r w w') ≡ view w
unfolding view enter_arm leave_arm
view-leave_arm h guard q r w w' k e =
    let f = ap (λ x. x.files) e in let d = ap (λ x. x.depth) e in ground arith
