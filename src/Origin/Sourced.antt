-- ===== src/Origin/Sourced.antt =====
-- The sources that an answer names are layers of the answer, computeOrigins of
-- tools/helmprov/cmd/helmprov/origin.go.
use cartograph_nvim.Base.{
  Text, true, ◌≡◌, refl, sym, ap, ◌∙◌, List, [], ◌∷◌, ◌++◌, some, inl, inr, ◌⊎◌, arith,
}
use mathlib.Core.Path.{subst}
use cartograph_nvim.Tpl.Host.{lookup_key}
use cartograph_nvim.Origin.Tables.{Any, Table, end, mark, unit_separator, origin_text}
use cartograph_nvim.Origin.Layers.{Layer, Chart, mark_chart}
use cartograph_nvim.Origin.Canon.{got, Tried-cases, Helm, as_map}
use cartograph_nvim.Origin.Merge.{
  merge_sources, user_values, file_layer, set_layer, values_of_file, values_of_set,
}
use cartograph_nvim.Origin.Compute.{Origins, marked_origins, compute_origins}
use cartograph_nvim.Origin.Named.{
  Holds, ChartHolds, IsNamed, IsNamed-left, IsNamed-right, chart-IsNamed, MergesLeaves,
  merge-IsNamed,
}
use cartograph_nvim.Origin.Marks.{origin-mark}
use cartograph_nvim.Origin.Source.{SetsPath, Source, of_chart, file-Source, set-Source}
use cartograph_nvim.Origin.Stages.{compute_stages, checked}
use cartograph_nvim.Origin.Texts.{origins_of-Holds}

-- The effective values make up no texts: a text leaf is one of the chart's, of a dependency's or of the
-- user's values.
abbrev pub RendersLeaves : {X : Type 0} → Helm X → Type 0
RendersLeaves {X = X} p =
    (ch : Chart X) (uv : Table X) (v : Any X) (s : Text)
    → p.render_values ch uv ≡ got v
    → Holds s (as_map v)
    → ChartHolds s ch ⊎ Holds s uv

-- The layer that a source names, by its id, and the path of a leaf of a source of that id.
abbrev pub NamesLayer : {X : Type 0} → (Text → Table X → Type 0) → Text → List Layer → Type 0
NamesLayer S o [] = ⊥
NamesLayer {X = X} S o (l ∷ ls) =
    ((path : Text) × (m : Table X) × S l.id m
      × SetsPath path m []
      × (o ≡ l.id ++ (unit_separator ++ path)))
    ⊎ NamesLayer S o ls

module _ {X : Type 0} (p : Helm X) (merges : MergesLeaves p) (dir : Text)
    (files sets : List Text) where
  abbrev Of : Text → Table X → Type 0
  Of id m = Source p dir files sets id m

  user-IsNamed :
      (m : Table X) (s : Text)
      → (user_values p files sets true).0 ≡ got m
      → Holds s m
      → IsNamed Of s (user_values p files sets true).1
  unfolding user_values Holds file_layer set_layer
  user-IsNamed m s =
      let merged = merge_sources p (values_of_file p) (file_layer p) true 1 files end in
      elim (Tried-cases merged.0) [
        | inr (why, c) ↦ rw (user_values, c) λ e n. ground arith
        | inl (base, c) ↦
            let more = merge_sources p (values_of_set p) (set_layer p) true 1 sets base in
            rw (user_values, c)
              λ e n.
                elim (merge-IsNamed p Of merges (values_of_set p) (set_layer p) 1 sets base m s
                  (set-Source p dir files sets) e n) [
                    | inr late ↦ IsNamed-right Of s merged.1 more.1 late
                    | inl early ↦
                        elim (merge-IsNamed p Of merges (values_of_file p) (file_layer p) 1 files
                          end base s (file-Source p dir files sets) c early) [
                            | inr k ↦ IsNamed-left Of s merged.1 more.1 k
                            | inl k ↦ absurd k
                          ]
                  ]
      ]

  mark-NamesLayer :
      (s o : Text) (ls : List Layer) → IsNamed Of s ls → origin_text s ≡ some o → NamesLayer Of o ls
  unfolding origin_text mark
  mark-NamesLayer s o [] n e = n
  mark-NamesLayer s o (l ∷ ls) (inr n) e = inr (mark-NamesLayer s o ls n e)
  mark-NamesLayer s o (l ∷ ls) (inl (path, m, f, h, n)) e =
      let k : some o ≡ some (l.id ++ (unit_separator ++ path)) =
        sym e ∙ (ap (λ x. origin_text x) n ∙ origin-mark l.id path) in
      inl (path, m, f, h, ground arith)

  module _ (renders : RendersLeaves p) where
    marked-NamesLayer :
        (a : Origins) (path o : Text)
        → a.origin ≡ []
        → lookup_key path (marked_origins p dir files sets a).origin ≡ some o
        → NamesLayer Of o (marked_origins p dir files sets a).layers
    unfolding marked_origins lookup_key
    marked-NamesLayer a path o z = elim (Tried-cases (p.load_chart dir)) [
      | inr (why, c) ↦ rw (marked_origins, c, z) λ e. ground arith
      | inl (ch, c) ↦
          let marked = mark_chart p.path_join ch dir [] in
          let merged = user_values p files sets true in
          elim (Tried-cases merged.0) [
            | inr (why, k) ↦ rw (marked_origins, c, k, z) λ e. ground arith
            | inl (mv, k) ↦ elim (Tried-cases (p.render_values marked.0 mv)) [
              | inr (why, q) ↦ rw (marked_origins, c, k, q, z) λ e. ground arith
              | inl (v, q) ↦
                  rw (marked_origins, c, k, q)
                    λ e.
                      let (s, h, f) = origins_of-Holds p v path o e in
                      mark-NamesLayer s o (marked.1 ++ merged.1)
                        (elim (renders marked.0 mv v s q h) [
                          | inl n ↦ IsNamed-left Of s marked.1 merged.1 (
                              chart-IsNamed Of p.path_join ch dir [] s
                                (λ id m g. of_chart ch id m c g) n)
                          | inr n ↦ IsNamed-right Of s marked.1 merged.1 (user-IsNamed mv s k n)
                        ])
                        f
            ]
          ]
    ]

-- Where Helm's merges and effective values make up no texts, a source that the answer names for a value
-- is the id of a layer that the answer lists and the path of a leaf, neither nil nor a table, of the
-- values of a source with that id: of the chart or a dependency, a file or a --set argument.
pub compute-NamesLayer :
    {X : Type 0} (p : Helm X) (dir : Text) (files sets : List Text) (real : Table X) (path o : Text)
    → MergesLeaves p
    → RendersLeaves p
    → lookup_key path (compute_origins p dir files sets real).origin ≡ some o
    → NamesLayer (Source p dir files sets) o (compute_origins p dir files sets real).layers
unfolding lookup_key
compute-NamesLayer p dir files sets real path o merges renders e =
    elim (compute_stages p dir files sets real) [
      | inl (z, bare) ↦
          let b : lookup_key path [] ≡ some o = sym (ap (λ x. lookup_key path x) z) ∙ e in
          ground arith
      | inr (defs, recorded, rep, same) ↦
          subst (λ x. NamesLayer (Source p dir files sets) o x.layers) (sym same)
            (marked-NamesLayer p merges dir files sets renders (checked p dir files sets real defs)
              path o refl (subst (λ x. lookup_key path x.origin ≡ some o) same e))
    ]
