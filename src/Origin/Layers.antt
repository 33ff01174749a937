-- ===== src/Origin/Layers.antt =====
-- The values sources as layers, and the leaves that each sets, tools/helmprov/cmd/helmprov/origin.go.
use cartograph_nvim.Base.{
  ℕ, zero, suc, ◌+◌, ◌/◌, ◌%◌, Text, codes, text_eq, Bool, true, false, List, [], ◌∷◌, ◌++◌,
  if◌then◌else◌, ltb,
}
use cartograph_nvim.Tpl.Host.{set_key}
use cartograph_nvim.Engine.Order.{text_lt}
use cartograph_nvim.Origin.Tables.{Any, null, Table, below, taint, leaves}

-- Layer
pub record Layer : Type 0 where
  pub id : Text
  pub kind : Text
  pub file : Text
  pub set : Text
  pub scope : Text

-- Def
pub record Def : Type 0 where
  pub path : Text
  pub is_nil : Bool

-- What a chart is to this part of the program: its name, its values and its dependencies.
mutual
  pub data Chart (X : Type 0) : Type 0 where
    chart : Text → Table X → Charts X → Chart X

  pub data Charts (X : Type 0) : Type 0 where
    no_charts : Charts X
    dependency : Chart X → Charts X → Charts X

-- `Defined`, by the layers' ids
abbrev pub Defs : Type 0
Defs = List (Text × List Def)

unfoldable pub chart_id : Text → Text
unfolding text_eq codes
chart_id scope = if text_eq scope [] then codes "chart" else codes "chart:" ++ scope

unfoldable pub chart_kind : Text → Text
unfolding text_eq codes
chart_kind scope = if text_eq scope [] then codes "chart" else codes "subchart"

unfoldable digits : ℕ → ℕ → Text
digits zero n = (0x30 + n) ∷ []
digits (suc fuel) n =
    let high = digits fuel (n / 10) in
    if ltb n 10 then (0x30 + n) ∷ [] else high ++ ((0x30 + n % 10) ∷ [])

-- the id of the source of a letter and a number: `%d` of the number, which has fewer than n digits
unfoldable pub numbered : Text → ℕ → Text
unfolding digits
numbered letter n = letter ++ digits n n

unfoldable pub insert_def : Def → List Def → List Def
unfolding text_lt
insert_def d [] = d ∷ []
insert_def d (e ∷ es) =
    let rest = insert_def d es in if text_lt e.path d.path then e ∷ rest else d ∷ e ∷ es

module _ {X : Type 0} where
  -- Name
  unfoldable pub name_of : Chart X → Text
  name_of (chart name vals subs) = name

  unfoldable pub is_null : Any X → Bool
  is_null null = true
  is_null v = false

  unfoldable pub to_def : Text × Any X → Def
  unfolding is_null
  to_def (p, v) = record { path = p; is_nil = is_null v }

  unfoldable pub sort_defs : List (Text × Any X) → List Def
  unfolding insert_def to_def
  sort_defs [] = []
  sort_defs (v ∷ vs) = insert_def (to_def v) (sort_defs vs)

  -- The leaves by path; Go leaves the order of leaves of one path open.
  unfoldable pub defined : Table X → List Def
  unfolding sort_defs leaves
  defined m = sort_defs (leaves m [])

  -- `path_join` is filepath.Join.
  module _ (path_join : List Text → Text) where
    unfoldable mutual
      unfolding chart_id chart_kind taint below codes name_of

      -- the marked chart and the layers recorded for it
      pub mark_chart : Chart X → Text → Text → Chart X × List Layer
      mark_chart (chart name vals subs) dir scope =
          let marked = mark_charts subs dir scope in
          let layer : Layer = record {
            id = chart_id scope;
            kind = chart_kind scope;
            file = path_join (dir ∷ codes "values.yaml" ∷ []);
            set = [];
            scope = scope;
          } in
          (chart name (taint vals (chart_id scope) []) marked.0, layer ∷ marked.1)

      pub mark_charts : Charts X → Text → Text → Charts X × List Layer
      mark_charts no_charts dir scope = (no_charts, [])
      mark_charts (dependency c cs) dir scope =
          let marked =
            mark_chart c (path_join (dir ∷ codes "charts" ∷ name_of c ∷ []))
              (below scope (name_of c)) in
          let others = mark_charts cs dir scope in
          (dependency marked.0 others.0, marked.1 ++ others.1)

  unfoldable mutual
    unfolding chart_id defined below set_key name_of

    pub chart_defined : Chart X → Text → Defs → Defs
    chart_defined (chart name vals subs) scope into =
        charts_defined subs scope (set_key (chart_id scope) (defined vals) into)

    pub charts_defined : Charts X → Text → Defs → Defs
    charts_defined no_charts scope into = into
    charts_defined (dependency c cs) scope into =
        charts_defined cs scope (chart_defined c (below scope (name_of c)) into)
