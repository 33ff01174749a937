-- ===== src/Tests/Origins.antt =====
-- The origins of a sample chart, and the theorems on them.
use cartograph_nvim.Base.{
  ℕ, Text, codes, text_eq, has_prefix, trim_prefix, ◌≡◌, refl, sym, [], ◌∷◌, ◌++◌, some, inl, inr,
  ◌⊎◌, concat, arith,
}
use mathlib.Core.Path.{subst}
use cartograph_nvim.Tpl.Host
use cartograph_nvim.Tpl.Host.{lookup_key}
use cartograph_nvim.Engine.Order
use cartograph_nvim.Origin.Tables
use cartograph_nvim.Origin.Tables.{Any, null, text, other, table, Table, end, entry, unit_separator}
use cartograph_nvim.Origin.Layers
use cartograph_nvim.Origin.Layers.{Chart, chart, no_charts, dependency}
use cartograph_nvim.Origin.Canon
use cartograph_nvim.Origin.Canon.{Helm, got, err, composite, as_map}
use cartograph_nvim.Origin.Merge
use cartograph_nvim.Origin.Compute
use cartograph_nvim.Origin.Compute.{compute_origins}
use cartograph_nvim.Origin.Named.{Holds, ChartHolds, MergesLeaves}
use cartograph_nvim.Origin.Stages.{IsReplicated}
use cartograph_nvim.Origin.Replicated.{compute-IsReplicated}
use cartograph_nvim.Origin.Layered.{AllRecorded, compute-AllRecorded}
use cartograph_nvim.Origin.Source.{Source}
use cartograph_nvim.Origin.Sourced.{RendersLeaves, NamesLayer, compute-NamesLayer}

-- A merge that puts the entries of the second map first.
unfoldable both : Table ℕ → Table ℕ → Table ℕ
both a end = a
both a (entry k v b) = entry k v (both a b)

abbrev chart_table : Chart ℕ → Table ℕ
chart_table (chart name vals subs) = vals

abbrev sample_chart : Chart ℕ
sample_chart = chart (codes "c") (entry (codes "a") (text (codes "x")) end) no_charts

abbrev file_table : Table ℕ
file_table = entry (codes "b") (other 1) end

abbrev helm : Helm ℕ
helm = record {
  load_chart = λ dir. got sample_chart;
  read_file = λ f. got (codes "b: 1");
  load_values = λ raw. got file_table;
  parse_set = λ s. err (codes "no sets");
  merge_maps = both;
  render_values = λ ch uv. got (table (both (chart_table ch) uv));
  path_join = λ ps. concat ps;
  scalar = λ x. composite;
  marshal = λ v. got (codes "1");
  print = λ v. [];
}

-- The effective values of the chart and one file.
abbrev real : Table ℕ
real = entry (codes "b") (other 1) (entry (codes "a") (text (codes "x")) end)

both-Holds : (a b : Table ℕ) (s : Text) → Holds s (both a b) → Holds s a ⊎ Holds s b
unfolding both Holds
both-Holds a end s h = inl h
both-Holds a (entry k v b) s (inl h) = inr (inl h)
both-Holds a (entry k v b) s (inr h) = elim (both-Holds a b s h) [
  | inl l ↦ inl l
  | inr r ↦ inr (inr r)
]

helm_merges : MergesLeaves helm
helm_merges = both-Holds

helm_renders : RendersLeaves helm
unfolding ChartHolds as_map
helm_renders (chart name vals subs) uv v s e h =
    let same : table (both vals uv) ≡ v = ground arith in
    elim (both-Holds vals uv s (subst (λ x. Holds s (as_map x)) (sym same) h)) [
      | inl l ↦ inl (inl l)
      | inr r ↦ inr r
    ]

named :
    lookup_key (codes "b") (compute_origins helm (codes "dir") (codes "f.yaml" ∷ []) [] real).origin
    ≡ some (codes "f1" ++ (unit_separator ++ codes "b"))
unfolding both codes text_eq has_prefix trim_prefix Host.set_key Host.lookup_key Order.text_lt
    Tables.marker Tables.below Tables.mark Tables.taint Tables.origin_text Tables.leaves
    Tables.origin Tables.origins Layers.chart_id Layers.chart_kind Layers.numbered Layers.is_null
    Layers.name_of Layers.defined Layers.mark_chart Layers.chart_defined Host.set_all Canon.as_map
    Canon.encoded Canon.canon_json Canon.canon_scalar Canon.canon Canon.canon_all Canon.canon_leaves
    Merge.add_source Merge.file_layer Merge.set_layer Merge.values_of_file Merge.values_of_set
    Merge.merge_sources Merge.user_values Compute.sources_defined Compute.plain_values_of_file
    Compute.at_path Compute.differing Compute.extra Compute.self_check Compute.origins_of
    Compute.marked_origins Compute.checked_origins Compute.replicated_origins
    Compute.compute_origins
named = refl

compute-IsReplicated_example : IsReplicated helm (codes "dir") (codes "f.yaml" ∷ []) [] real
compute-IsReplicated_example =
    compute-IsReplicated helm (codes "dir") (codes "f.yaml" ∷ []) [] real (codes "b")
      (codes "f1" ++ (unit_separator ++ codes "b")) named

compute-AllRecorded_example :
    AllRecorded
      (Source helm (codes "dir") (codes "f.yaml" ∷ []) [])
      (compute_origins helm (codes "dir") (codes "f.yaml" ∷ []) [] real).defined
      (compute_origins helm (codes "dir") (codes "f.yaml" ∷ []) [] real).layers
compute-AllRecorded_example = compute-AllRecorded helm (codes "dir") (codes "f.yaml" ∷ []) [] real

compute-NamesLayer_example :
    NamesLayer
      (Source helm (codes "dir") (codes "f.yaml" ∷ []) [])
      (codes "f1" ++ (unit_separator ++ codes "b"))
      (compute_origins helm (codes "dir") (codes "f.yaml" ∷ []) [] real).layers
compute-NamesLayer_example =
    compute-NamesLayer helm (codes "dir") (codes "f.yaml" ∷ []) [] real (codes "b")
      (codes "f1" ++ (unit_separator ++ codes "b")) helm_merges helm_renders named
