-- ===== src/Origin/Layered.antt =====
-- Every layer of an answer has its leaves recorded, computeOrigins of
-- tools/helmprov/cmd/helmprov/origin.go.
use cartograph_nvim.Base.{
  ℕ, Text, codes, true, false, ◌≡◌, sym, List, [], ◌∷◌, some, Bool-cases, inl, inr, arith,
}
use mathlib.Core.List.{Perm}
use mathlib.Core.List.Perm
use mathlib.Core.Path.{subst}
use cartograph_nvim.Tpl.Host.{lookup_key}
use cartograph_nvim.Engine.Order.{text_lt}
use cartograph_nvim.Origin.Tables.{Any, null, text, other, table, Table, leaves}
use cartograph_nvim.Origin.Layers.{
  Layer, Def, Defs, Chart, mark_chart, chart_defined, defined, insert_def, to_def, sort_defs,
  is_null, numbered,
}
use cartograph_nvim.Origin.Source.{Source, of_chart, of_set, Numbers, plain_file-Source}
use cartograph_nvim.Origin.Canon.{got, Tried-cases, Helm}
use cartograph_nvim.Origin.Merge.{user_values}
use cartograph_nvim.Origin.Compute.{Origins, marked_origins, compute_origins, plain_values_of_file}
use cartograph_nvim.Origin.Known.{
  AllKnown, Keeps, AllKnown-Keeps, AllKnown-append, chart-AllKnown, NumbersKnown-Keeps,
}
use cartograph_nvim.Origin.Stages.{IsRecorded, file_defs, set_defs, checked, compute_stages}
use cartograph_nvim.Origin.Sources.{sources-Keeps, sources-NumbersKnown, user-AllKnown}

-- The leaves of a table, each with its path and whether it is nil.
abbrev pub leaf_defs : {X : Type 0} → List (Text × Any X) → List Def
leaf_defs [] = []
leaf_defs ((path, null) ∷ vs) = record { path = path; is_nil = true } ∷ leaf_defs vs
leaf_defs ((path, text s) ∷ vs) = record { path = path; is_nil = false } ∷ leaf_defs vs
leaf_defs ((path, other x) ∷ vs) = record { path = path; is_nil = false } ∷ leaf_defs vs
leaf_defs ((path, table m) ∷ vs) = record { path = path; is_nil = false } ∷ leaf_defs vs

insert_def-perm : (d : Def) (es : List Def) → Perm (insert_def d es) (d ∷ es)
unfolding insert_def
insert_def-perm d [] = Perm.rfl
insert_def-perm d (e ∷ es) = elim (Bool-cases (text_lt e.path d.path)) [
  | inl c ↦ rw c (Perm.trans (Perm.cons e (insert_def-perm d es)) (Perm.swap d e es))
  | inr c ↦ rw c Perm.rfl
]

module _ {X : Type 0} where
  sort_step :
      (v : Text × Any X) (vs : List (Text × Any X))
      → Perm (sort_defs vs) (leaf_defs vs)
      → Perm (sort_defs (v ∷ vs)) (to_def v ∷ leaf_defs vs)
  unfolding sort_defs
  sort_step v vs p = Perm.trans (insert_def-perm (to_def v) (sort_defs vs)) (Perm.cons (to_def v) p)

  sort_defs-perm : (vs : List (Text × Any X)) → Perm (sort_defs vs) (leaf_defs vs)
  unfolding sort_defs to_def is_null
  sort_defs-perm [] = Perm.rfl
  sort_defs-perm ((q, null) ∷ vs) = sort_step (q, null) vs (sort_defs-perm vs)
  sort_defs-perm ((q, text s) ∷ vs) = sort_step (q, text s) vs (sort_defs-perm vs)
  sort_defs-perm ((q, other x) ∷ vs) = sort_step (q, other x) vs (sort_defs-perm vs)
  sort_defs-perm ((q, table m) ∷ vs) = sort_step (q, table m) vs (sort_defs-perm vs)

  defined-perm : (m : Table X) → Perm (defined m) (leaf_defs (leaves m []))
  unfolding defined
  defined-perm m = sort_defs-perm (leaves m [])

  -- Under the id of each layer stand, in some order, the leaves of a source of that id.
  abbrev pub AllRecorded : (Text → Table X → Type 0) → Defs → List Layer → Type 0
  AllRecorded S defs [] = Unit {0}
  AllRecorded S defs (l ∷ ls) =
      ((m : Table X) × (ds : List Def) × S l.id m
        × (lookup_key l.id defs ≡ some ds)
        × Perm ds (leaf_defs (leaves m [])))
      × AllRecorded S defs ls

  AllKnown-AllRecorded :
      (S : Text → Table X → Type 0) (defs : Defs) (ls : List Layer)
      → AllKnown S defs ls
      → AllRecorded S defs ls
  AllKnown-AllRecorded S defs [] a = tt
  AllKnown-AllRecorded S defs (l ∷ ls) ((m, f, e), a) =
      ((m, defined m, f, e, defined-perm m), AllKnown-AllRecorded S defs ls a)

module _ {X : Type 0} (p : Helm X) (dir : Text) (files sets : List Text) where
  abbrev Of : Text → Table X → Type 0
  Of id m = Source p dir files sets id m

  abbrev HasDefs : Origins → Type 0
  HasDefs o = AllKnown Of o.defined o.layers

  -- The layers of the marked pipeline are all known.
  abbrev Covers : Defs → Type 0
  Covers defs =
      ((ch : Chart X)
        → p.load_chart dir ≡ got ch
        → AllKnown Of defs (mark_chart p.path_join ch dir []).1)
      × AllKnown Of defs (user_values p files sets true).1

  marked-HasDefs :
      (o : Origins) → HasDefs o → Covers o.defined → HasDefs (marked_origins p dir files sets o)
  unfolding marked_origins
  marked-HasDefs o a (charts, user) = elim (Tried-cases (p.load_chart dir)) [
    | inr (why, c) ↦ rw (marked_origins, c) a
    | inl (ch, c) ↦
        let marked = mark_chart p.path_join ch dir [] in
        let merged = user_values p files sets true in
        let all = AllKnown-append Of o.defined marked.1 merged.1 (charts ch c) user in
        elim (Tried-cases merged.0) [
          | inr (why, k) ↦ rw (marked_origins, c, k) all
          | inl (mv, k) ↦ elim (Tried-cases (p.render_values marked.0 mv)) [
            | inr (why, q) ↦ rw (marked_origins, c, k, q) all
            | inl (rvm, q) ↦ rw (marked_origins, c, k, q) all
          ]
        ]
  ]

  chart-Covers :
      (plain ch : Chart X) (defs : Defs)
      → p.load_chart dir ≡ got plain
      → p.load_chart dir ≡ got ch
      → Keeps Of (chart_defined plain [] []) defs
      → AllKnown Of defs (mark_chart p.path_join ch dir []).1
  chart-Covers plain ch defs l k keeps =
      let same : plain ≡ ch = ground arith in
      subst (λ c. AllKnown Of defs (mark_chart p.path_join c dir []).1) same
        (AllKnown-Keeps Of (chart_defined plain [] []) defs (mark_chart p.path_join plain dir []).1
          keeps (chart-AllKnown Of p.path_join plain dir [] [] λ id m h. of_chart plain id m l h))

  set_values-Source :
      (j : ℕ) (s : Text) (m : Table X)
      → Numbers j s 1 sets
      → p.parse_set s ≡ got m
      → Of (numbered (codes "s") j) m
  set_values-Source j s m n e = of_set j s m n e

  recorded-Covers : (defs : Defs) → IsRecorded p files sets dir defs → Covers defs
  unfolding IsRecorded
  recorded-Covers defs (plain, l, c, k, same) =
      let cd = chart_defined plain [] [] in
      let fd = file_defs p files sets plain in
      let read = plain_values_of_file p in
      let from_files = plain_file-Source p dir files sets in
      let kept = sources-Keeps p Of p.parse_set (codes "s") 1 sets fd.1 set_values-Source in
      let kept₁ = sources-Keeps p Of read (codes "f") 1 files cd from_files in
      let numbers = sources-NumbersKnown p Of read (codes "f") 1 files cd from_files c in
      let last = (set_defs p files sets plain).1 in
      subst (λ d. Covers d) same
        (
          λ ch e. chart-Covers plain ch last l e λ id q. kept id (kept₁ id q),
          user-AllKnown p Of files sets last
              (NumbersKnown-Keeps Of (codes "f") 1 files fd.1 last kept numbers)
              (sources-NumbersKnown p Of p.parse_set (codes "s") 1 sets fd.1 set_values-Source k),
        )

-- However the answer is reached, refusals included, it has for every layer that it lists an entry with
-- the leaves, up to order, of the values of a source with the layer's id, of the chart or a dependency,
-- a file or a --set argument: the path of each, and whether it is nil.
pub compute-AllRecorded :
    {X : Type 0} (p : Helm X) (dir : Text) (files sets : List Text) (real : Table X)
    → AllRecorded
        (Source p dir files sets)
        (compute_origins p dir files sets real).defined
        (compute_origins p dir files sets real).layers
compute-AllRecorded p dir files sets real =
    let answer = compute_origins p dir files sets real in
    AllKnown-AllRecorded (Of p dir files sets) answer.defined answer.layers
      (elim (compute_stages p dir files sets real) [
        | inl (z, bare) ↦
            subst (λ ls. AllKnown (Of p dir files sets) answer.defined ls) (sym bare) tt
        | inr (defs, recorded, rep, same) ↦ subst (HasDefs p dir files sets) (sym same) (
            marked-HasDefs p dir files sets (checked p dir files sets real defs) tt
              (recorded-Covers p dir files sets defs recorded))
      ])
