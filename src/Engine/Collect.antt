-- ===== src/Engine/Collect.antt =====
-- The templates of a chart and its dependencies, with the values in the scope of each: allTemplates,
-- recAllTpls and RenderWithContext of tools/helmprov/engine/engine.go. What the accessor of a chart
-- gives is data here, and the table of a path in the values a parameter.
use cartograph_nvim.Base.{
  ℕ, Text, codes, Bool, true, Option, none, some, List, [], ◌∷◌, ◌++◌, if◌then◌else◌,
}
use cartograph_nvim.Tpl.Value.{
  Value, nil_interface, interface, bool, map_of, Entries, end, map_index,
}
use cartograph_nvim.Tpl.Host.{Host, set_key}
use cartograph_nvim.Tpl.World.{M}
use cartograph_nvim.Engine.Paths.{path_join}
use cartograph_nvim.Engine.Render.{Renderable, set_entry, is_partial, Rendering}
use cartograph_nvim.Engine.Prepare.{Engine, engine_render}
use cartograph_nvim.Engine.Scoping.{symbolic_values}

-- What an accessor gives of one chart; a template may be nil.
pub record Info : Type 0 where
  pub name : Text
  pub full_path : Text
  pub is_root : Bool
  pub is_library : Bool
  pub metadata : Entries
  pub files : Value
  pub templates : List (Option (Text × Text))

mutual
  pub data Charter : Type 0 where
    charter : Info → Charters → Charter

  pub data Charters : Type 0 where
    no_charters : Charters
    dependency : Charter → Charters → Charters

unfoldable pub info_of : Charter → Info
info_of (charter info subs) = info

abbrev pub Collected : Type 0
Collected = List (Text × Renderable)

-- an entry of a map, a nil interface where there is none
unfoldable pub entry_of : Entries → Text → Value
unfolding map_index
entry_of es k = elim (map_index es k) [ none ↦ nil_interface | some v ↦ v ]

-- isTemplateValid
unfoldable pub is_template_valid : Info → Text → Bool
unfolding is_partial
is_template_valid info name = if info.is_library then is_partial name else true

-- the loop over the templates of one chart
unfoldable pub add_templates : Info → Entries → List (Option (Text × Text)) → Collected → Collected
unfolding is_template_valid path_join set_key codes
add_templates info next [] tpls = tpls
add_templates info next (none ∷ ts) tpls = add_templates info next ts tpls
add_templates info next (some (name, text) ∷ ts) tpls =
    let skipped = add_templates info next ts tpls in
    let r : Renderable = record {
      tpl = text;
      vals = next;
      base_path = path_join info.full_path (codes "templates");
    } in
    let added = add_templates info next ts (set_key (path_join info.full_path name) r tpls) in
    if is_template_valid info name then added else skipped

-- `table` is Table of the values, none where it fails.
module _ (table : Entries → Text → Option Entries) (symbolic : Bool) where
  -- `.Values` in the scope of a chart
  unfoldable pub scoped_values : Info → Entries → Value
  unfolding entry_of symbolic_values codes
  scoped_values info vals =
      let concrete =
        if info.is_root
        then entry_of vals (codes "Values")
        else elim (table vals (codes "Values." ++ info.name)) [
          | none ↦ interface (map_of end)
          | some es ↦ interface (map_of es)
        ] in
      if symbolic
      then interface (symbolic_values info.is_root info.name (entry_of vals (codes "Values")))
      else concrete

  -- `next`, without its `Subcharts`
  unfoldable pub next_values : Info → Entries → Entries
  unfolding scoped_values set_entry entry_of codes
  next_values info vals =
      let chart = set_entry (codes "IsRoot") (interface (bool info.is_root)) info.metadata in
      set_entry (codes "Chart") (interface (map_of chart)) (
        set_entry (codes "Files") (interface info.files) (
          set_entry (codes "Release") (entry_of vals (codes "Release")) (
            set_entry (codes "Capabilities") (entry_of vals (codes "Capabilities"))
              (set_entry (codes "Values") (scoped_values info vals) end))))

  unfoldable mutual
    unfolding next_values add_templates set_entry info_of codes

    pub rec_all_tpls : Charter → Collected → Entries → Entries × Collected
    rec_all_tpls (charter info subs) tpls vals =
        let next = next_values info vals in
        let below = rec_subcharts subs tpls next end in
        let all = set_entry (codes "Subcharts") (interface (map_of below.0)) next in
        (all, add_templates info all info.templates below.1)

    -- the loop over the dependencies, with the `Subcharts` so far
    pub rec_subcharts : Charters → Collected → Entries → Entries → Entries × Collected
    rec_subcharts no_charters tpls next sofar = (sofar, tpls)
    rec_subcharts (dependency c cs) tpls next sofar =
        let sub = rec_all_tpls c tpls next in
        rec_subcharts cs sub.1 next (set_entry (info_of c).name (interface (map_of sub.0)) sofar)

  unfoldable pub all_templates : Charter → Entries → Collected
  unfolding rec_all_tpls
  all_templates c vals = (rec_all_tpls c [] vals).1

  -- RenderWithContext
  unfoldable pub render_with_context : Engine → Host → ℕ → Charter → Entries → M Rendering
  unfolding all_templates engine_render
  render_with_context g h fuel c vals = engine_render g h fuel (all_templates c vals)
