-- ===== src/Origin/Sources.antt =====
-- The user's sources are all known: userValues and computeOrigins of
-- tools/helmprov/cmd/helmprov/origin.go.
use cartograph_nvim.Base.{
  ℕ, suc, Text, codes, true, ◌≡◌, refl, sym, List, [], ◌∷◌, none, inl, inr, arith,
}
use mathlib.Core.Path.{subst}
use cartograph_nvim.Tpl.Host.{set_key}
use cartograph_nvim.Origin.Tables.{Table, end}
use cartograph_nvim.Origin.Layers.{Layer, Defs, numbered, defined}
use cartograph_nvim.Origin.Canon.{Tried, got, Tried-cases, Helm}
use cartograph_nvim.Origin.Merge.{
  merge_sources, add_source, user_values, file_layer, set_layer, values_of_file, values_of_set,
}
use cartograph_nvim.Origin.Compute.{sources_defined}
use cartograph_nvim.Origin.Source.{Numbers}
use cartograph_nvim.Origin.Known.{
  IsKnown, AllKnown, Keeps, set_key-IsKnown, set_key-Keeps, AllKnown-append, NumbersKnown,
}

module _ {X : Type 0} (p : Helm X) (S : Text → Table X → Type 0) where
  -- The values read for the numbered texts are sources.
  abbrev pub AreSources : (Text → Tried (Table X)) → Text → ℕ → List Text → Type 0
  AreSources read letter i fs =
      (j : ℕ) (f : Text) (m : Table X) → Numbers j f i fs → read f ≡ got m → S (numbered letter j) m

  pub sources-Keeps :
      (read : Text → Tried (Table X)) (letter : Text) (i : ℕ) (fs : List Text) (into : Defs)
      → AreSources read letter i fs
      → Keeps S into (sources_defined p read letter i fs into).1
  unfolding sources_defined
  sources-Keeps read letter i [] into g id e = e
  sources-Keeps read letter i (f ∷ fs) into g id e = elim (Tried-cases (read f)) [
    | inr (why, c) ↦ rw (sources_defined, c) e
    | inl (m, c) ↦
        rw (sources_defined, c)
          (sources-Keeps read letter (suc i) fs (set_key (numbered letter i) (defined m) into)
            (λ j q r k. g j q r (inr k)) id
            (set_key-Keeps S (numbered letter i) m into (g i f m (inl (refl, refl)) c) id e))
  ]

  pub sources-NumbersKnown :
      (read : Text → Tried (Table X)) (letter : Text) (i : ℕ) (fs : List Text) (into : Defs)
      → AreSources read letter i fs
      → (sources_defined p read letter i fs into).0 ≡ none
      → NumbersKnown S letter i fs (sources_defined p read letter i fs into).1
  unfolding sources_defined
  sources-NumbersKnown read letter i [] into g = λ e. tt
  sources-NumbersKnown read letter i (f ∷ fs) into g = elim (Tried-cases (read f)) [
    | inr (why, c) ↦ rw (sources_defined, c) λ e. ground arith
    | inl (m, c) ↦
        let mine = set_key (numbered letter i) (defined m) into in
        rw (sources_defined, c)
          λ e. (
            sources-Keeps read letter (suc i) fs mine (λ j q r k. g j q r (inr k))
                (numbered letter i)
                (set_key-IsKnown S (numbered letter i) m into (g i f m (inl (refl, refl)) c)),
            sources-NumbersKnown read letter (suc i) fs mine (λ j q r k. g j q r (inr k)) e,
          )
  ]

  merge-AllKnown :
      (read : Text → Tried (Table X)) (layer : ℕ → Text → Layer) (letter : Text) (i : ℕ)
      (fs : List Text) (base : Table X) (defs : Defs)
      → ((n : ℕ) (f : Text) → (layer n f).id ≡ numbered letter n)
      → NumbersKnown S letter i fs defs
      → AllKnown S defs (merge_sources p read layer true i fs base).1
  unfolding merge_sources add_source
  merge-AllKnown read layer letter i [] base defs named known = tt
  merge-AllKnown read layer letter i (f ∷ fs) base defs named (e, known) =
      elim (Tried-cases (read f)) [
        | inr (why, c) ↦ rw (merge_sources, c) tt
        | inl (m, c) ↦
            rw (merge_sources, c)
              (
                subst (λ id. IsKnown S id defs) (sym (named i f)) e,
                merge-AllKnown read layer letter (suc i) fs (add_source p true (layer i f) m base).0
                    defs named known,
              )
      ]

  pub user-AllKnown :
      (files sets : List Text) (defs : Defs)
      → NumbersKnown S (codes "f") 1 files defs
      → NumbersKnown S (codes "s") 1 sets defs
      → AllKnown S defs (user_values p files sets true).1
  unfolding user_values file_layer set_layer
  user-AllKnown files sets defs k l =
      let merged = merge_sources p (values_of_file p) (file_layer p) true 1 files end in
      let mine =
        merge-AllKnown (values_of_file p) (file_layer p) (codes "f") 1 files end defs (λ n f. refl)
          k in
      elim (Tried-cases merged.0) [
        | inr (why, c) ↦ rw (user_values, c) mine
        | inl (base, c) ↦
            rw (user_values, c)
              (AllKnown-append S defs merged.1
                (merge_sources p (values_of_set p) (set_layer p) true 1 sets base).1 mine
                (merge-AllKnown (values_of_set p) (set_layer p) (codes "s") 1 sets base defs
                  (λ n f. refl) l))
      ]
