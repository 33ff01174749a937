-- ===== src/Tpl/Noting/Bounds.antt =====
-- The bounds of a recorder: what is kept of `.` at an action, and the marks of reads, recordDot and
-- recordRead of tools/helmprov/tpl/prov.go.
use cartograph_nvim.Base.{
  ℕ, ◌≤◌, Text, text_eq, text_eq_flip, false, not, ◌≡◌, refl, none, some, Option, Bool-cases, inl,
  inr, List, [], ◌∷◌, ◌++◌, arith, length, ltb, ◌||◌,
}
use cartograph_nvim.Base.TextLaws.{length-append}
use mathlib.Core.Path.{subst}
use cartograph_nvim.Tpl.Value.{Value}
use cartograph_nvim.Tpl.Host.{Host, Template, set_key, lookup_key}
use cartograph_nvim.Tpl.Record.{Recorder, Read, Dot}
use cartograph_nvim.Tpl.World.{World}
use cartograph_nvim.Tpl.Prov.{read_of, see_dot, mem_text}
use cartograph_nvim.Tpl.Run.{execute}
use cartograph_nvim.Tpl.Noting.{RecorderLaws, On}
use cartograph_nvim.Tpl.Noting.Runs.{execute_keeps}

-- No text stands twice.
abbrev pub AllDifferent : List Text → Type 0
AllDifferent [] = Unit {0}
AllDifferent (t ∷ ts) = (mem_text t ts ≡ false) × AllDifferent ts

-- At most five texts, none twice, and at most as many as there were executions.
pub record IsShort (d : Dot) : Type 0 where
  pub five : length d.values ≤ 5
  pub different : AllDifferent d.values
  pub counted : length d.values ≤ d.n

abbrev pub AllShort : List (Text × Dot) → Type 0
AllShort [] = Unit {0}
AllShort ((l, d) ∷ ds) = IsShort d × AllShort ds

-- A read that is not marked untaken has no guard.
abbrev pub AllMarked : List Read → Type 0
AllMarked [] = Unit {0}
AllMarked (r ∷ rs) = (r.untaken ≡ false → r.guard ≡ []) × AllMarked rs

pub record IsBounded (r : Recorder) : Type 0 where
  pub dots : AllShort r.dots
  pub reads : AllMarked r.reads

mem_text_step :
    (t x : Text) (ts : List Text)
    → mem_text t (x ∷ ts) ≡ false
    → (text_eq x t ≡ false) × (mem_text t ts ≡ false)
unfolding mem_text
mem_text_step t x ts e = ground arith

mem_text-append :
    (x t : Text) (ts : List Text)
    → mem_text x ts ≡ false
    → text_eq t x ≡ false
    → mem_text x (ts ++ t ∷ []) ≡ false
unfolding mem_text
mem_text-append x t [] f e = ground arith
mem_text-append x t (y ∷ ts) f e = ground (arith, mem_text-append x t ts)

AllDifferent-append :
    (ts : List Text) (t : Text)
    → AllDifferent ts
    → mem_text t ts ≡ false
    → AllDifferent (ts ++ t ∷ [])
AllDifferent-append [] t a e = (unfold mem_text in refl, tt)
AllDifferent-append (x ∷ ts) t (f, a) e =
    let (d, k) = mem_text_step t x ts e in
    (mem_text-append x t ts f (text_eq_flip x t d), AllDifferent-append ts t a k)

see_dot-IsShort :
    (t : Text) (o : Option Dot) → ((d : Dot) → o ≡ some d → IsShort d) → IsShort (see_dot t o)
unfolding see_dot
see_dot-IsShort t none s = record {
  five = omega arith;
  different = (unfold mem_text in refl, tt);
  counted = omega arith;
}
see_dot-IsShort t (some d) s =
    let short = s d refl in
    elim (Bool-cases (mem_text t d.values || not (ltb (length d.values) 5))) [
      | inl b ↦ rw b (record {
        five = short.five;
        different = short.different;
        counted = omega (arith, short.counted);
      })
      | inr b ↦
          let m : mem_text t d.values ≡ false = ground arith in
          let room : length d.values ≤ 4 = ground arith in
          rw b (record {
            five = omega (arith, room, length-append d.values (t ∷ []));
            different = AllDifferent-append d.values t short.different m;
            counted = omega (arith, short.counted, length-append d.values (t ∷ []));
          })
    ]

AllShort-set_key :
    (l : Text) (d : Dot) (ds : List (Text × Dot))
    → IsShort d
    → AllShort ds
    → AllShort (set_key l d ds)
unfolding set_key
AllShort-set_key l d [] s a = (s, tt)
AllShort-set_key l d ((j, e) ∷ ds) s (f, a) = elim (Bool-cases (text_eq j l)) [
  | inl b ↦ rw b (s, a)
  | inr b ↦ rw b (f, AllShort-set_key l d ds s a)
]

lookup-IsShort :
    (l : Text) (ds : List (Text × Dot)) (d : Dot)
    → AllShort ds
    → lookup_key l ds ≡ some d
    → IsShort d
unfolding lookup_key
lookup-IsShort l [] d a e = ground arith
lookup-IsShort l ((j, x) ∷ ds) d (f, a) e = elim (Bool-cases (text_eq j l)) [
  | inl b ↦ let same : x ≡ d = ground arith in subst IsShort same f
  | inr b ↦ lookup-IsShort l ds d a (ground arith)
]

AllMarked-append :
    (rs : List Read) (r : Read)
    → AllMarked rs
    → (r.untaken ≡ false → r.guard ≡ [])
    → AllMarked (rs ++ r ∷ [])
AllMarked-append [] r a e = (e, tt)
AllMarked-append (q ∷ rs) r (f, a) e = (f, AllMarked-append rs r a e)

read_of-guard :
    (path place : Text) (r : Recorder) (gs : List Text)
    → r.guards ≡ gs
    → (read_of path place r).untaken ≡ false
    → (read_of path place r).guard ≡ []
unfolding read_of
read_of-guard path place r [] e = rw e λ k. refl
read_of-guard path place r (g ∷ gs) e = rw e λ k. ground arith

pub IsBounded-laws : RecorderLaws IsBounded
IsBounded-laws = record {
  reads = λ r path place p. record {
    dots = p.dots;
    reads =
        AllMarked-append r.reads (read_of path place r) p.reads
          (read_of-guard path place r r.guards refl);
  };
  dots = λ r l t p. record {
    dots =
        AllShort-set_key l (see_dot t (lookup_key l r.dots)) r.dots
          (see_dot-IsShort t (lookup_key l r.dots) λ d e. lookup-IsShort l r.dots d p.dots e)
          p.dots;
    reads = p.reads;
  };
  arms = λ r note c e p. record { dots = p.dots; reads = p.reads };
  depth = λ r n p. record { dots = p.dots; reads = p.reads };
  files = λ r fs p. record { dots = p.dots; reads = p.reads };
  entered = λ r guard c p. record { dots = p.dots; reads = p.reads };
  left = λ r p. record { dots = p.dots; reads = p.reads };
  explored = λ r e p. record { dots = p.dots; reads = p.reads };
}

-- Where the recorder before an execution keeps the bounds, the one after it does, however it ends: at
-- each action at most five texts of `.` are kept, all different and no more than the executions
-- counted, and a read that is not marked untaken has no guard.
pub execute-IsBounded :
    (h : Host) (fuel : ℕ) (t : Template) (v : Value) (w : World)
    → On IsBounded w.trace.rec
    → On IsBounded (execute h fuel t v w).1.trace.rec
execute-IsBounded = execute_keeps IsBounded IsBounded-laws
