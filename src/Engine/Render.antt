-- ===== src/Engine/Render.antt =====
-- Rendering the templates of a chart, `render` of tools/helmprov/engine/engine.go. The parser is a
-- parameter; the text of an error is the executor's own.
use cartograph_nvim.Base.{
  ℕ, suc, Text, codes, text_eq, has_prefix, last_index, drop, replace_all_empty, Bool, Option, none,
  some, List, [], ◌∷◌, if◌then◌else◌, ◌==◌,
}
use cartograph_nvim.Tpl.Value.{Value, interface, str, map_of, Entries, end, entry}
use cartograph_nvim.Tpl.Host.{Host, lookup_template, lookup_key}
use cartograph_nvim.Tpl.World.{ok, M, on_option, pure, ◌>>=◌, inner}
use cartograph_nvim.Tpl.Run.{execute}
use cartograph_nvim.Tpl.Call.{no_template}
use cartograph_nvim.Tpl.Finish.{finish, no_value}
use cartograph_nvim.Engine.Order.{text_lt, sort_templates}

-- renderable
pub record Renderable : Type 0 where
  pub tpl : Text
  pub vals : Entries
  pub base_path : Text

-- the entry of a map of values under a key, the entries in key order
unfoldable pub set_entry : Text → Value → Entries → Entries
unfolding text_eq text_lt
set_entry k v end = entry k v end
set_entry k v (entry j u es) =
    let rest = set_entry k v es in
    if text_eq k j
    then entry k v es
    else if text_lt k j
    then entry k v (entry j u es)
    else entry j u rest

unfoldable pub trim_slashes : Text → Text
trim_slashes [] = []
trim_slashes (c ∷ s) = elim (trim_slashes s) [
  | [] ↦ if c == 0x2F then [] else c ∷ []
  | d ∷ t ↦ c ∷ d ∷ t
]

-- path.Base: the last element; the slashes at the end do not count
unfoldable pub base : Text → Text
unfolding codes last_index trim_slashes
base [] = codes "."
base (c ∷ s) = elim (trim_slashes (c ∷ s)) [
  | [] ↦ codes "/"
  | d ∷ t ↦ elim (last_index (d ∷ t) (codes "/")) [ none ↦ d ∷ t | some i ↦ drop (suc i) (d ∷ t) ]
]

unfoldable pub is_partial : Text → Bool
unfolding base has_prefix codes
is_partial name = has_prefix (base name) (codes "_")

-- The values of a rendering: those of the template's chart, and which template it is.
unfoldable pub template_vals : Text → Renderable → Value
unfolding set_entry codes
template_vals name r =
    let this = map_of (
      set_entry (codes "Name") (interface (str name))
        (set_entry (codes "BasePath") (interface (str r.base_path)) end)) in
    map_of (set_entry (codes "Template") (interface this) r.vals)

-- What becomes of one template: its text, or an error with the template's name.
pub data Outcome : Type 0 where
  skipped : Outcome
  rendered : Text → Outcome
  failed : Text → Outcome

-- The text without its `<no value>`s; under a recorder the spans of the file follow.
unfoldable pub finish_text : Text → Text → M Text
unfolding finish no_value
finish_text name raw w = elim w.trace.rec [
  | none ↦ (ok (replace_all_empty raw no_value), w)
  | some r ↦ (
    ok (finish name raw r).0,
    record w { trace = record w.trace { rec = some (finish name raw r).1 } },
  )
]

unfoldable pub finish_outcome : Text → Text × Option Text → M Outcome
unfolding finish_text
finish_outcome name (raw, some e) = pure (failed e)
finish_outcome name (raw, none) = finish_text name raw >>= λ t. pure (rendered t)

module _ (h : Host) (fuel : ℕ) where
  -- ExecuteTemplate of a template that is no partial
  unfoldable pub render_file : Text → Renderable → M Outcome
  unfolding is_partial template_vals finish_outcome no_template
  render_file name r =
      if is_partial name
      then pure skipped
      else inner >>= λ s.
          on_option (lookup_template s.group.templates name) (pure (failed (no_template h name)))
            λ t. execute h fuel t (template_vals name r) >>= finish_outcome name

-- The rendered texts by name, or the name and the error of the first template that fails.
pub data Rendering : Type 0 where
  done : List (Text × Text) → Rendering
  error : Text → Text → Rendering

abbrev pub add_text : Text → Text → Rendering → Rendering
add_text name t (done texts) = done ((name, t) ∷ texts)
add_text name t (error n e) = error n e

-- What follows the rendering of a template, with the rendering of the templates after it.
unfoldable pub render_rest : Text → M Rendering → Outcome → M Rendering
render_rest name rest skipped = rest
render_rest name rest (failed e) = pure (error name e)
render_rest name rest (rendered t) = rest >>= λ k. pure (add_text name t k)

-- The second loop of render.
unfoldable pub render_keys : Host → ℕ → List (Text × Renderable) → List Text → M Rendering
unfolding render_file render_rest
render_keys h fuel tpls [] = pure (done [])
render_keys h fuel tpls (name ∷ names) =
    let rest = render_keys h fuel tpls names in
    on_option (lookup_key name tpls) rest λ r. render_file h fuel name r >>= render_rest name rest

-- The keys of the map of templates.
unfoldable pub template_names : List (Text × Renderable) → List Text
template_names [] = []
template_names ((name, r) ∷ tpls) = name ∷ template_names tpls

-- render, once the templates are parsed into the group of the world.
unfoldable pub render : Host → ℕ → List (Text × Renderable) → M Rendering
unfolding render_keys template_names
render h fuel tpls = render_keys h fuel tpls (sort_templates (template_names tpls))
