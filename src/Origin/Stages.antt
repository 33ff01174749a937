-- ===== src/Origin/Stages.antt =====
-- How an answer is reached, computeOrigins of tools/helmprov/cmd/helmprov/origin.go.
use cartograph_nvim.Base.{
  Text, codes, false, ◌≡◌, refl, List, [], Option, none, Option-cases, inl, inr, ◌⊎◌,
}
use cartograph_nvim.Tpl.Host.{lookup_key}
use cartograph_nvim.Origin.Tables.{Any, Table}
use cartograph_nvim.Origin.Canon.{got, Helm, canon_leaves, as_map, Tried-cases}
use cartograph_nvim.Origin.Layers.{Chart, chart_defined, Defs}
use cartograph_nvim.Origin.Merge.{user_values}
use cartograph_nvim.Origin.Compute.{
  self_check, Origins, marked_origins, no_origins, checked_origins, replicated_origins,
  compute_origins, sources_defined, plain_values_of_file,
}
use cartograph_nvim.Origin.Check.{self_check-lookup, AllFull-canon_leaves}

-- The unmarked pipeline runs, and its effective values have the canonical leaves of Helm's own.
unfoldable pub IsReplicated :
    {X : Type 0} → Helm X → Text → List Text → List Text → Table X → Type 0
IsReplicated {X = X} p dir files sets real =
    (plain : Chart X) × (uv : Table X) × (rv : Any X) × (p.load_chart dir ≡ got plain)
    × ((user_values p files sets false).0 ≡ got uv)
    × (p.render_values plain uv ≡ got rv)
    × ((path : Text)
        → lookup_key path (canon_leaves p real) ≡ lookup_key path (canon_leaves p (as_map rv)))

module _ {X : Type 0} (p : Helm X) (files sets : List Text) where
  abbrev pub file_defs : Chart X → Option Text × Defs
  file_defs plain =
      sources_defined p (plain_values_of_file p) (codes "f") 1 files (chart_defined plain [] [])

  abbrev pub set_defs : Chart X → Option Text × Defs
  set_defs plain = sources_defined p p.parse_set (codes "s") 1 sets (file_defs plain).1

  -- The leaves of all sources are recorded.
  unfoldable pub IsRecorded : Text → Defs → Type 0
  IsRecorded dir defs =
      (plain : Chart X) × (p.load_chart dir ≡ got plain)
      × ((file_defs plain).0 ≡ none)
      × ((set_defs plain).0 ≡ none)
      × ((set_defs plain).1 ≡ defs)

-- An answer that names no sources and lists no layers.
abbrev pub IsBare : Origins → Type 0
IsBare a = (a.origin ≡ []) × (a.layers ≡ [])

module _ {X : Type 0} (p : Helm X) (dir : Text) (files sets : List Text) (real : Table X) where
  -- The answer before the marked pipeline.
  abbrev pub checked : Defs → Origins
  checked defs = record no_origins { defined = defs; values = canon_leaves p real }

  abbrev pub Replicates : Origins → Origins → Type 0
  Replicates o answer =
      IsBare answer
      ⊎ (IsReplicated p dir files sets real
          × (answer ≡ marked_origins p dir files sets (record o { values = canon_leaves p real })))

  checked_stages :
      (plain : Chart X) (uv : Table X) (rv : Any X) (o : Origins)
      → p.load_chart dir ≡ got plain
      → (user_values p files sets false).0 ≡ got uv
      → p.render_values plain uv ≡ got rv
      → IsBare o
      → Replicates o (checked_origins p dir files sets rv real o)
  unfolding checked_origins
  checked_stages plain uv rv o l u v bare =
      let values = canon_leaves p real in
      let repl = canon_leaves p (as_map rv) in
      elim (Option-cases (self_check values repl)) [
        | inr (why, c) ↦ rw (checked_origins, c) (inl bare)
        | inl c ↦
            let replicated : IsReplicated p dir files sets real =
              unfold IsReplicated in
              (
                plain,
                uv,
                rv,
                l,
                u,
                v,
                λ q. self_check-lookup values repl q (AllFull-canon_leaves p real) c,
              ) in
            rw (checked_origins, c) (inr (replicated, refl))
      ]

  replicated_stages :
      (plain : Chart X) (o : Origins)
      → p.load_chart dir ≡ got plain
      → IsBare o
      → Replicates o (replicated_origins p dir files sets real plain o)
  unfolding replicated_origins
  replicated_stages plain o l bare = elim (Tried-cases (user_values p files sets false).0) [
    | inr (why, c) ↦ rw (replicated_origins, c) (inl bare)
    | inl (uv, c) ↦ elim (Tried-cases (p.render_values plain uv)) [
      | inr (why, k) ↦ rw (replicated_origins, c, k) (inl bare)
      | inl (rv, k) ↦ rw (replicated_origins, c, k) (checked_stages plain uv rv o l c k bare)
    ]
  ]

  -- An answer is bare, or the marked pipeline's after all else has passed.
  abbrev pub Staged : Origins → Type 0
  Staged answer =
      IsBare answer
      ⊎ ((defs : Defs) × IsRecorded p files sets dir defs
          × IsReplicated p dir files sets real
          × (answer ≡ marked_origins p dir files sets (checked defs)))

  pub compute_stages : Staged (compute_origins p dir files sets real)
  unfolding compute_origins
  compute_stages = elim (Tried-cases (p.load_chart dir)) [
    | inr (why, l) ↦ rw (compute_origins, l) (inl (refl, refl))
    | inl (plain, l) ↦ elim (Option-cases (file_defs p files sets plain).0) [
      | inr (why, c) ↦ rw (compute_origins, l, c) (inl (refl, refl))
      | inl c ↦ elim (Option-cases (set_defs p files sets plain).0) [
        | inr (why, k) ↦ rw (compute_origins, l, c, k) (inl (refl, refl))
        | inl k ↦
            let defs = (set_defs p files sets plain).1 in
            let o : Origins = record no_origins { defined = defs } in
            let recorded : IsRecorded p files sets dir defs =
              unfold IsRecorded in (plain, l, c, k, refl) in
            rw (compute_origins, l, c, k)
              (elim (replicated_stages plain o l (refl, refl)) [
                | inl bare ↦ inl bare
                | inr (rep, same) ↦ inr (defs, recorded, rep, same)
              ])
      ]
    ]
  ]
