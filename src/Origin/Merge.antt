-- ===== src/Origin/Merge.antt =====
-- The merge of the user's values, userValues of tools/helmprov/cmd/helmprov/origin.go.
use cartograph_nvim.Base.{ℕ, suc, Text, codes, Bool, List, [], ◌∷◌, ◌++◌, if◌then◌else◌}
use cartograph_nvim.Origin.Tables.{Table, end, taint}
use cartograph_nvim.Origin.Layers.{Layer, numbered}
use cartograph_nvim.Origin.Canon.{Tried, got, err, Helm}

module _ {X : Type 0} (p : Helm X) where
  -- One source of userValues: its layer and its marks, when marking, and its merge.
  unfoldable pub add_source : Bool → Layer → Table X → Table X → Table X × List Layer
  unfolding taint
  add_source mark layer m base =
      if mark
      then (p.merge_maps base (taint m layer.id []), layer ∷ [])
      else (p.merge_maps base m, [])

  unfoldable pub file_layer : ℕ → Text → Layer
  unfolding codes numbered
  file_layer i f = record {
    id = numbered (codes "f") i;
    kind = codes "file";
    file = f;
    set = [];
    scope = [];
  }

  unfoldable pub set_layer : ℕ → Text → Layer
  unfolding codes numbered
  set_layer i s = record {
    id = numbered (codes "s") i;
    kind = codes "set";
    file = [];
    set = s;
    scope = [];
  }

  -- the values of a file, with the error of userValues
  unfoldable pub values_of_file : Text → Tried (Table X)
  unfolding codes
  values_of_file f = elim (p.read_file f) [
    | err e ↦ err e
    | got raw ↦ elim (p.load_values raw) [
      | err e ↦ err (codes "failed to parse " ++ (f ++ (codes ": " ++ e)))
      | got m ↦ got m
    ]
  ]

  unfoldable pub values_of_set : Text → Tried (Table X)
  unfolding codes
  values_of_set s = elim (p.parse_set s) [
    | err e ↦ err (codes "failed parsing --set data: " ++ e)
    | got m ↦ got m
  ]

  -- A loop of userValues over sources numbered from i: the merged values and the layers recorded,
  -- before an error too.
  unfoldable pub merge_sources :
      (Text → Tried (Table X))
      → (ℕ → Text → Layer)
      → Bool
      → ℕ
      → List Text
      → Table X
      → Tried (Table X) × List Layer
  unfolding add_source
  merge_sources read layer mark i [] base = (got base, [])
  merge_sources read layer mark i (f ∷ fs) base = elim (read f) [
    | err e ↦ (err e, [])
    | got m ↦
        let added = add_source mark (layer i f) m base in
        let rest = merge_sources read layer mark (suc i) fs added.0 in (rest.0, added.1 ++ rest.1)
  ]

  -- userValues
  unfoldable pub user_values : List Text → List Text → Bool → Tried (Table X) × List Layer
  unfolding merge_sources values_of_file values_of_set file_layer set_layer
  user_values files sets mark =
      let merged = merge_sources values_of_file file_layer mark 1 files end in
      elim merged.0 [
        | err e ↦ (err e, merged.1)
        | got base ↦
            let all = merge_sources values_of_set set_layer mark 1 sets base in
            (all.0, merged.1 ++ all.1)
      ]
