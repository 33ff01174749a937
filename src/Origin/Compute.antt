-- ===== src/Origin/Compute.antt =====
-- The answer computed from the marked sources, computeOrigins of
-- tools/helmprov/cmd/helmprov/origin.go.
use cartograph_nvim.Base.{
  ℕ, suc, Text, codes, text_eq, true, false, List, [], ◌∷◌, ◌++◌, Option, none, some, if◌then◌else◌,
  is_some,
}
use cartograph_nvim.Tpl.Host.{set_all, set_key, lookup_key}
use cartograph_nvim.Origin.Tables.{Any, Table, leaves, origins}
use cartograph_nvim.Origin.Layers.{Layer, Defs, Chart, numbered, defined, mark_chart, chart_defined}
use cartograph_nvim.Origin.Canon.{Tried, got, err, Helm, as_map, canon_leaves}
use cartograph_nvim.Origin.Merge.{user_values}

-- Origins
pub record Origins : Type 0 where
  pub layers : List Layer
  pub values : List (Text × Text)
  pub origin : List (Text × Text)
  pub defined : Defs
  pub refused : Text

abbrev pub no_origins : Origins
no_origins = record { layers = []; values = []; origin = []; defined = []; refused = [] }

abbrev pub refuse : Text → Origins → Origins
refuse why o = record o { refused = why }

-- `repl[p]`
unfoldable pub at_path : List (Text × Text) → Text → Text
unfolding lookup_key
at_path m path = elim (lookup_key path m) [ none ↦ [] | some v ↦ v ]

-- the first loop of the self-check, over entries of Helm's values
unfoldable pub differing : List (Text × Text) → List (Text × Text) → Option Text
unfolding at_path codes text_eq
differing [] repl = none
differing ((path, v) ∷ values) repl =
    let rest = differing values repl in
    if text_eq (at_path repl path) v
    then rest
    else some (
        codes "the replicated merge differs from Helm's at "
        ++ (path ++ (codes " (" ++ (at_path repl path ++ (codes " vs " ++ (v ++ codes ")"))))))

-- the second loop, over entries of the replicated values
unfoldable pub extra : List (Text × Text) → List (Text × Text) → Option Text
unfolding lookup_key codes
extra [] values = none
extra ((path, v) ∷ repl) values =
    let rest = extra repl values in
    if is_some (lookup_key path values)
    then rest
    else some (codes "the replicated merge has a value Helm's does not: " ++ path)

unfoldable pub self_check : List (Text × Text) → List (Text × Text) → Option Text
unfolding differing extra
self_check values repl = elim (differing values repl) [
  | some why ↦ some why
  | none ↦ extra repl values
]

module _ {X : Type 0} (p : Helm X) where
  unfoldable pub sources_defined :
      (Text → Tried (Table X)) → Text → ℕ → List Text → Defs → Option Text × Defs
  unfolding set_key numbered defined
  sources_defined read letter i [] into = (none, into)
  sources_defined read letter i (f ∷ fs) into = elim (read f) [
    | err e ↦ (some e, into)
    | got m ↦ sources_defined read letter (suc i) fs (set_key (numbered letter i) (defined m) into)
  ]

  -- the values of a file, with the error of computeOrigins
  unfoldable pub plain_values_of_file : Text → Tried (Table X)
  plain_values_of_file f = elim (p.read_file f) [ err e ↦ err e | got raw ↦ p.load_values raw ]

  -- the last stage: the marked sources
  unfoldable pub origins_of : Any X → List (Text × Text)
  unfolding set_all origins leaves as_map
  origins_of rvm = set_all (origins (leaves (as_map rvm) [])) []

  unfoldable pub marked_origins : Text → List Text → List Text → Origins → Origins
  unfolding codes mark_chart user_values origins_of
  marked_origins dir files sets o = elim (p.load_chart dir) [
    | err e ↦ refuse (codes "load: " ++ e) o
    | got ch ↦
        let marked = mark_chart p.path_join ch dir [] in
        let merged = user_values p files sets true in
        let o₁ : Origins = record o { layers = marked.1 ++ merged.1 } in
        elim merged.0 [
          | err e ↦ refuse e o₁
          | got mv ↦ elim (p.render_values marked.0 mv) [
            | err e ↦ refuse (codes "marked render values: " ++ e) o₁
            | got rvm ↦ record o₁ { origin = origins_of rvm }
          ]
        ]
  ]

  -- the self-check, and what follows it
  unfoldable pub checked_origins :
      Text → List Text → List Text → Any X → Table X → Origins → Origins
  unfolding canon_leaves as_map self_check marked_origins
  checked_origins dir files sets rv real o =
      let o₁ : Origins = record o { values = canon_leaves p real } in
      elim (self_check (canon_leaves p real) (canon_leaves p (as_map rv))) [
        | some why ↦ refuse why o₁
        | none ↦ marked_origins dir files sets o₁
      ]

  -- the unmarked pipeline
  unfoldable pub replicated_origins :
      Text → List Text → List Text → Table X → Chart X → Origins → Origins
  unfolding codes user_values checked_origins
  replicated_origins dir files sets real plain o = elim (user_values p files sets false).0 [
    | err e ↦ refuse e o
    | got uv ↦ elim (p.render_values plain uv) [
      | err e ↦ refuse (codes "render values: " ++ e) o
      | got rv ↦ checked_origins dir files sets rv real o
    ]
  ]

  unfoldable pub compute_origins : Text → List Text → List Text → Table X → Origins
  unfolding codes chart_defined sources_defined plain_values_of_file replicated_origins
  compute_origins dir files sets real = elim (p.load_chart dir) [
    | err e ↦ refuse (codes "load: " ++ e) no_origins
    | got plain ↦
        let fd =
          sources_defined plain_values_of_file (codes "f") 1 files (chart_defined plain [] []) in
        elim fd.0 [
          | some e ↦ refuse e (record no_origins { defined = fd.1 })
          | none ↦
              let sd = sources_defined p.parse_set (codes "s") 1 sets fd.1 in
              elim sd.0 [
                | some e ↦ refuse e (record no_origins { defined = sd.1 })
                | none ↦
                    replicated_origins dir files sets real plain
                      (record no_origins { defined = sd.1 })
              ]
        ]
  ]
