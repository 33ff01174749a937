-- ===== src/Report/Reads.antt =====
-- What the document says of the arms that the values did not take, main of
-- tools/helmprov/cmd/helmprov/main.go.
use cartograph_nvim.Engine.Prepare.{Engine, engine_render}
use cartograph_nvim.Engine.Prepared.{engine_render_keeps}
use cartograph_nvim.Base.{
  ℕ, Text, Bool, true, false, ◌≡◌, refl, sym, ap, ◌∙◌, Option-cases, Bool-cases, some, inl, inr,
  List, [], ◌∷◌, ◌++◌, if◌then◌else◌, arith,
}
use mathlib.Core.List.{append-nil}
use mathlib.Core.Path.{subst}
use cartograph_nvim.Tpl.Host.{Host}
use cartograph_nvim.Tpl.Record.{Recorder, Read, new_recorder}
use cartograph_nvim.Tpl.World.{World, Result, ok, panics}
use cartograph_nvim.Tpl.Noting.{On}
use cartograph_nvim.Tpl.Noting.Taken.{AllTaken, IsPlainRecorder, taken_laws}
use cartograph_nvim.Engine.Render.{Renderable, Rendering, done, error}
use cartograph_nvim.Report.{
  Report, first_recorder, explored_recorder, under, rendering_of, untaken_reads, taken_report,
  branch_report, first_report, report,
}

-- The reads of a list that are not marked untaken.
unfoldable pub taken_reads : List Read → List Read
taken_reads [] = []
taken_reads (r ∷ rs) = let rest = taken_reads rs in if r.untaken then rest else r ∷ rest

taken_step :
    (r : Read) (rs : List Read) (b : Bool)
    → r.untaken ≡ b
    → taken_reads (r ∷ rs) ≡ (if b then taken_reads rs else r ∷ taken_reads rs)
unfolding taken_reads
taken_step r rs b e = ap (λ x. if x then taken_reads rs else r ∷ taken_reads rs) e

untaken_step :
    (r : Read) (rs : List Read) (b : Bool)
    → r.untaken ≡ b
    → untaken_reads (r ∷ rs) ≡ (if b then r ∷ untaken_reads rs else untaken_reads rs)
unfolding untaken_reads
untaken_step r rs b e = ap (λ x. if x then r ∷ untaken_reads rs else untaken_reads rs) e

taken_reads-append : (rs qs : List Read) → taken_reads (rs ++ qs) ≡ taken_reads rs ++ taken_reads qs
taken_reads-append [] qs = unfold taken_reads in refl
taken_reads-append (r ∷ rs) qs = elim (Bool-cases r.untaken) [
  | inl b ↦
      taken_step r (rs ++ qs) true b
      ∙ (taken_reads-append rs qs ∙ sym (ap (λ l. l ++ taken_reads qs) (taken_step r rs true b)))
  | inr b ↦
      taken_step r (rs ++ qs) false b
      ∙ (ap (λ l. r ∷ l) (taken_reads-append rs qs)
          ∙ sym (ap (λ l. l ++ taken_reads qs) (taken_step r rs false b)))
]

taken_reads-untaken : (rs : List Read) → taken_reads (untaken_reads rs) ≡ []
taken_reads-untaken [] = unfold taken_reads untaken_reads in refl
taken_reads-untaken (r ∷ rs) = elim (Bool-cases r.untaken) [
  | inl b ↦
      ap (λ l. taken_reads l) (untaken_step r rs true b)
      ∙ (taken_step r (untaken_reads rs) true b ∙ taken_reads-untaken rs)
  | inr b ↦ ap (λ l. taken_reads l) (untaken_step r rs false b) ∙ taken_reads-untaken rs
]

taken_reads-all : (rs : List Read) → AllTaken rs → taken_reads rs ≡ rs
taken_reads-all [] a = unfold taken_reads in refl
taken_reads-all (r ∷ rs) (e, a) = taken_step r rs false e ∙ ap (λ l. r ∷ l) (taken_reads-all rs a)

pub rendering_rec :
    (x : Result Rendering × World) (texts : List (Text × Text)) (first : Recorder)
    → rendering_of x ≡ some (texts, first)
    → x.1.trace.rec ≡ some first
unfolding rendering_of
rendering_rec (ok (done ts), w) texts first = elim (Option-cases w.trace.rec) [
  | inl n ↦ rw n λ e. ground arith
  | inr (r, c) ↦ rw c λ e. ground arith
]
rendering_rec (ok (error n m), w) texts first = λ e. ground arith
rendering_rec (panics p, w) texts first = λ e. ground arith

-- The document with the arms that the values did not take differs from the one without them only in
-- what the arms add: reads that are marked untaken, arms and explored arms.
abbrev pub Adds : Report → Report → Type 0
Adds plain doc =
    (doc.files ≡ plain.files) × (doc.dots ≡ plain.dots) × (taken_reads doc.reads ≡ plain.reads)

branch_report-Adds :
    (g : Engine) (h : Host) (fuel : ℕ) (tpls explored_tpls : List (Text × Renderable)) (w : World)
    (plain doc : Report)
    → AllTaken plain.reads
    → branch_report g h fuel tpls explored_tpls w plain ≡ some doc
    → Adds plain doc
unfolding branch_report
branch_report-Adds g h fuel tpls explored_tpls w plain doc a =
    elim (Option-cases
      (rendering_of (engine_render g h fuel explored_tpls (under explored_recorder w)))) [
        | inl n ↦ rw (branch_report, n) λ e. ground arith
        | inr (y, c) ↦
            let added : taken_reads (plain.reads ++ untaken_reads y.1.reads) ≡ plain.reads =
              taken_reads-append plain.reads (untaken_reads y.1.reads)
              ∙ (ap (λ l. taken_reads plain.reads ++ l) (taken_reads-untaken y.1.reads)
                  ∙ (append-nil (taken_reads plain.reads) ∙ taken_reads-all plain.reads a)) in
            rw (branch_report, c)
              λ e.
                let files : doc.files ≡ plain.files = ground arith in
                let dots : doc.dots ≡ plain.dots = ground arith in
                let reads : doc.reads ≡ plain.reads ++ untaken_reads y.1.reads = ground arith in
                (files, dots, ap (λ l. taken_reads l) reads ∙ added)
      ]

-- Where the program prints a document with the arms that the values did not take, it prints one without
-- them as well, with the same files, the same contexts, and for its reads those of the first that are
-- not marked untaken.
pub report-Adds :
    (g : Engine) (h : Host) (fuel : ℕ) (tpls explored_tpls : List (Text × Renderable)) (w : World)
    (dots : Bool) (doc : Report)
    → report g h fuel tpls explored_tpls w false true dots ≡ some doc
    → (plain : Report) × (report g h fuel tpls explored_tpls w false false dots ≡ some plain)
      × Adds plain doc
unfolding report first_report
report-Adds g h fuel tpls explored_tpls w dots doc =
    let r = first_recorder false dots in
    let x = engine_render g h fuel tpls (under r w) in
    elim (Option-cases (rendering_of x)) [
      | inl n ↦ rw (report, n) λ e. ground arith
      | inr ((texts, first), c) ↦
          let start : IsPlainRecorder r =
            unfold first_recorder new_recorder in (refl, refl, tt, refl) in
          let last =
            engine_render_keeps IsPlainRecorder taken_laws g h fuel tpls (under r w) start in
          let plain : IsPlainRecorder first =
            subst (λ o. On IsPlainRecorder o) (rendering_rec x texts first c) last in
          let (b, guards, taken, a) = plain in
          rw (report, c)
            λ e. (
              taken_report texts first,
              refl,
              branch_report-Adds g h fuel tpls explored_tpls w (taken_report texts first) doc taken
                  e,
            )
    ]
