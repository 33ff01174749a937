-- ===== src/Engine/Prepare.antt =====
-- An engine's render as a whole: the functions of its templates, the loop that parses them, the loop
-- that renders them and the recovery of panics; render and initFunMap of
-- tools/helmprov/engine/engine.go.
use cartograph_nvim.Base.{
  ℕ, Text, codes, Bool, Option, none, some, List, [], ◌∷◌, ◌++◌, if◌then◌else◌,
}
use cartograph_nvim.Tpl.Value.{str, t_string, t_any}
use cartograph_nvim.Tpl.Host.{
  Host, Function, value, include, tpl, native, Group, map_error, map_zero_value, set_key, set_all,
  lookup_key,
}
use cartograph_nvim.Tpl.World.{
  World, Result, ok, panics, exec_error, runtime_error, walk_break, walk_continue, out_of_fuel, M,
}
use cartograph_nvim.Engine.Order.{sort_templates}
use cartograph_nvim.Engine.Render.{Renderable, Rendering, error, template_names, render}
use cartograph_nvim.Engine.Messages.{call_required, call_fail, cleanup_parse_error}

-- The group with a text's templates, or the error of the parser.
pub data Parsed : Type 0 where
  parsed : Group → Parsed
  unparsed : Text → Parsed

-- The settings of an engine. The last two fields are parameters: the functions of funcMap with `lookup`,
-- and `t.New(name).Parse(text)` for the templates t.
pub record Engine : Type 0 where
  pub strict : Bool
  pub lint_mode : Bool
  pub enable_dns : Bool
  pub custom_template_funcs : List (Text × Function)
  pub func_map : List (Text × Function)
  pub parse : Text → Text → Group → Parsed

-- initFunMap
unfoldable pub init_fun_map : Engine → List (Text × Function)
unfolding call_required call_fail set_key set_all codes
init_fun_map g =
    let included =
      set_key (codes "include")
        (record { params = t_string ∷ t_any ∷ []; variadic = none; fault = none; body = include })
        g.func_map in
    let tpl_added =
      set_key (codes "tpl")
        (record { params = t_string ∷ t_any ∷ []; variadic = none; fault = none; body = tpl })
        included in
    let required =
      set_key (codes "required")
        (record {
          params = t_string ∷ t_any ∷ [];
          variadic = none;
          fault = none;
          body = native (call_required g.lint_mode);
        })
        tpl_added in
    let fail =
      set_key (codes "fail")
        (record {
          params = t_string ∷ [];
          variadic = none;
          fault = none;
          body = native (call_fail g.lint_mode);
        })
        required in
    let no_dns =
      set_key (codes "getHostByName")
        (record {
          params = t_string ∷ [];
          variadic = none;
          fault = none;
          body = native (λ args. value (str []));
        })
        fail in
    set_all g.custom_template_funcs (if g.enable_dns then fail else no_dns)

-- The templates before the first one is parsed.
unfoldable pub new_group : Engine → Group
unfolding init_fun_map
new_group g = record {
  templates = [];
  funcs = init_fun_map g;
  missing_key = if g.strict then map_error else map_zero_value;
}

-- The parsed templates, or the name of the first that does not parse and the error.
pub data Loaded : Type 0 where
  loaded : Group → Loaded
  refused : Text → Text → Loaded

abbrev pub parse_rest : Text → (Group → Loaded) → Parsed → Loaded
parse_rest name rest (unparsed e) = refused name (cleanup_parse_error name e)
parse_rest name rest (parsed group) = rest group

abbrev pub parse_step : Engine → Text → Group → (Group → Loaded) → Option Renderable → Loaded
parse_step g name group rest none = rest group
parse_step g name group rest (some r) = parse_rest name rest (g.parse name r.tpl group)

-- the first loop of render
unfoldable pub parse_keys : Engine → List (Text × Renderable) → List Text → Group → Loaded
unfolding lookup_key
parse_keys g tpls [] group = loaded group
parse_keys g tpls (name ∷ names) group =
    parse_step g name group (parse_keys g tpls names) (lookup_key name tpls)

abbrev pub failure : Text → Rendering
failure e = error [] (codes "rendering template failed: " ++ e)

-- the deferred recover
abbrev pub recovered : Result Rendering → Result Rendering
recovered (ok x) = ok x
recovered (panics (exec_error name e)) = ok (failure e)
recovered (panics (runtime_error e)) = ok (failure e)
recovered (panics walk_break) = ok (failure (codes "break"))
recovered (panics walk_continue) = ok (failure (codes "continue"))
recovered (panics out_of_fuel) = panics out_of_fuel

abbrev pub in_group : Group → World → World
in_group group w = record w { inner = record w.inner { group = group; included = [] } }

module _ (h : Host) (fuel : ℕ) (tpls : List (Text × Renderable)) where
  unfoldable pub render_loaded : Loaded → M Rendering
  unfolding render
  render_loaded (refused name e) w = (ok (error name e), w)
  render_loaded (loaded group) w =
      let x = render h fuel tpls (in_group group w) in (recovered x.0, x.1)

-- Engine.render; the error of an execution is not reformatted yet.
unfoldable pub engine_render : Engine → Host → ℕ → List (Text × Renderable) → M Rendering
unfolding render_loaded parse_keys new_group sort_templates template_names
engine_render g h fuel tpls =
    render_loaded h fuel tpls
      (parse_keys g tpls (sort_templates (template_names tpls)) (new_group g))
