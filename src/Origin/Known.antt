-- ===== src/Origin/Known.antt =====
-- The layers of an answer and the leaves that it has for them, tools/helmprov/cmd/helmprov/origin.go.
use cartograph_nvim.Base.{
  ℕ, suc, Text, codes, text_eq, text_eq_sound, text_eq_refl, ◌≡◌, refl, ap, ◌∙◌, List, [], ◌∷◌,
  ◌++◌, Bool-cases, inl, inr, some, if◌then◌else◌,
}
use mathlib.Core.Path.{subst}
use cartograph_nvim.Tpl.Host.{set_key, lookup_key}
use cartograph_nvim.Tpl.Halting.Spare.{lookup-set}
use cartograph_nvim.Origin.Tables.{Table, below}
use cartograph_nvim.Origin.Source.{ChartSets, ChartsSet}
use cartograph_nvim.Origin.Layers.{
  Layer, Defs, Chart, chart, Charts, no_charts, dependency, chart_id, numbered, defined, mark_chart,
  mark_charts, chart_defined, charts_defined, name_of,
}

module _ {X : Type 0} (S : Text → Table X → Type 0) where
  -- What is recorded under the id are the leaves of a source of that id.
  abbrev pub IsKnown : Text → Defs → Type 0
  IsKnown id defs = (m : Table X) × S id m × (lookup_key id defs ≡ some (defined m))

  -- Every layer is known.
  abbrev pub AllKnown : Defs → List Layer → Type 0
  AllKnown defs [] = Unit {0}
  AllKnown defs (l ∷ ls) = IsKnown l.id defs × AllKnown defs ls

  -- What is known stays known.
  abbrev pub Keeps : Defs → Defs → Type 0
  Keeps defs defs' = (id : Text) → IsKnown id defs → IsKnown id defs'

  pub set_key-IsKnown :
      (id : Text) (m : Table X) (defs : Defs) → S id m → IsKnown id (set_key id (defined m) defs)
  set_key-IsKnown id m defs f = (
    m,
    f,
    lookup-set id id (defined m) defs
        ∙ ap (λ b. if b then some (defined m) else lookup_key id defs) (text_eq_refl id),
  )

  pub set_key-Keeps :
      (k : Text) (n : Table X) (defs : Defs) → S k n → Keeps defs (set_key k (defined n) defs)
  set_key-Keeps k n defs f id (m, g, e) =
      let step = lookup-set k id (defined n) defs in
      elim (Bool-cases (text_eq k id)) [
        | inl c ↦ (
          n,
          subst (λ x. S x n) (text_eq_sound k id c) f,
          step ∙ ap (λ b. if b then some (defined n) else lookup_key id defs) c,
        )
        | inr c ↦
            (m, g, step ∙ (ap (λ b. if b then some (defined n) else lookup_key id defs) c ∙ e))
      ]

  pub AllKnown-Keeps :
      (defs defs' : Defs) (ls : List Layer)
      → Keeps defs defs'
      → AllKnown defs ls
      → AllKnown defs' ls
  AllKnown-Keeps defs defs' [] k a = tt
  AllKnown-Keeps defs defs' (l ∷ ls) k (e, a) = (k l.id e, AllKnown-Keeps defs defs' ls k a)

  pub AllKnown-append :
      (defs : Defs) (ls ms : List Layer)
      → AllKnown defs ls
      → AllKnown defs ms
      → AllKnown defs (ls ++ ms)
  AllKnown-append defs [] ms a b = b
  AllKnown-append defs (l ∷ ls) ms (e, a) b = (e, AllKnown-append defs ls ms a b)

  mutual
    unfolding chart_defined ChartSets

    chart-Keeps :
        (c : Chart X) (scope : Text) (into : Defs)
        → ((id : Text) (m : Table X) → ChartSets c scope id m → S id m)
        → Keeps into (chart_defined c scope into)
    chart-Keeps (chart name vals subs) scope into f id e =
        charts-Keeps subs scope (set_key (chart_id scope) (defined vals) into)
          (λ i m h. f i m (inr h)) id
          (set_key-Keeps (chart_id scope) vals into (f (chart_id scope) vals (inl (refl, refl))) id
            e)

    charts-Keeps :
        (cs : Charts X) (scope : Text) (into : Defs)
        → ((id : Text) (m : Table X) → ChartsSet cs scope id m → S id m)
        → Keeps into (charts_defined cs scope into)
    charts-Keeps no_charts scope into f id e = e
    charts-Keeps (dependency c cs) scope into f id e =
        charts-Keeps cs scope (chart_defined c (below scope (name_of c)) into)
          (λ i m h. f i m (inr h)) id
          (chart-Keeps c (below scope (name_of c)) into (λ i m h. f i m (inl h)) id e)

  module _ (path_join : List Text → Text) where
    mutual
      unfolding chart_defined mark_chart ChartSets

      pub chart-AllKnown :
          (c : Chart X) (dir scope : Text) (into : Defs)
          → ((id : Text) (m : Table X) → ChartSets c scope id m → S id m)
          → AllKnown (chart_defined c scope into) (mark_chart path_join c dir scope).1
      chart-AllKnown (chart name vals subs) dir scope into f =
          let mine = set_key (chart_id scope) (defined vals) into in
          let own = f (chart_id scope) vals (inl (refl, refl)) in
          (
            charts-Keeps subs scope mine (λ i m h. f i m (inr h)) (chart_id scope)
                (set_key-IsKnown (chart_id scope) vals into own),
            charts-AllKnown subs dir scope mine (λ i m h. f i m (inr h)),
          )

      pub charts-AllKnown :
          (cs : Charts X) (dir scope : Text) (into : Defs)
          → ((id : Text) (m : Table X) → ChartsSet cs scope id m → S id m)
          → AllKnown (charts_defined cs scope into) (mark_charts path_join cs dir scope).1
      charts-AllKnown no_charts dir scope into f = tt
      charts-AllKnown (dependency c cs) dir scope into f =
          let s = below scope (name_of c) in
          let d = path_join (dir ∷ codes "charts" ∷ name_of c ∷ []) in
          let mine = chart_defined c s into in
          AllKnown-append (charts_defined cs scope mine) (mark_chart path_join c d s).1
            (mark_charts path_join cs dir scope).1
            (AllKnown-Keeps mine (charts_defined cs scope mine) (mark_chart path_join c d s).1
              (charts-Keeps cs scope mine λ i m h. f i m (inr h))
              (chart-AllKnown c d s into λ i m h. f i m (inl h)))
            (charts-AllKnown cs dir scope mine λ i m h. f i m (inr h))

  -- The numbered sources of a list are known.
  abbrev pub NumbersKnown : Text → ℕ → List Text → Defs → Type 0
  NumbersKnown letter i [] defs = Unit {0}
  NumbersKnown letter i (f ∷ fs) defs =
      IsKnown (numbered letter i) defs × NumbersKnown letter (suc i) fs defs

  pub NumbersKnown-Keeps :
      (letter : Text) (i : ℕ) (fs : List Text) (defs defs' : Defs)
      → Keeps defs defs'
      → NumbersKnown letter i fs defs
      → NumbersKnown letter i fs defs'
  NumbersKnown-Keeps letter i [] defs defs' k n = tt
  NumbersKnown-Keeps letter i (f ∷ fs) defs defs' k (e, n) =
      (k (numbered letter i) e, NumbersKnown-Keeps letter (suc i) fs defs defs' k n)
