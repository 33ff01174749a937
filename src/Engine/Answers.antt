-- ===== src/Engine/Answers.antt =====
-- Every render answers, with texts or with an error: render of tools/helmprov/engine/engine.go.
use cartograph_nvim.Base.{ℕ, ◌+◌, ◌*◌, Text, List, []}
use cartograph_nvim.Tpl.Host.{Host, Group}
use cartograph_nvim.Tpl.World.{World}
use cartograph_nvim.Tpl.Value.{Value}
use cartograph_nvim.Tpl.Halting.{root_sizes}
use cartograph_nvim.Tpl.Halting.Spare.{spare}
use cartograph_nvim.Engine.Order.{sort_templates}
use cartograph_nvim.Engine.Render.{Renderable, template_names}
use cartograph_nvim.Engine.Prepare.{Engine, Loaded, loaded, refused, parse_keys, new_group}

unfoldable pub group_rank : Group → ℕ
unfolding spare
group_rank g = spare g.templates [] * 100001 + 100000

-- Enough fuel to render any templates of a group: for each template that may be entered by its name a
-- level for each node of the bodies.
unfoldable pub group_enough : Group → ℕ
unfolding group_rank root_sizes
group_enough g = group_rank g * (root_sizes g.templates + 1) + root_sizes g.templates

unfoldable pub loaded_enough : Loaded → ℕ
unfolding group_enough
loaded_enough (refused name e) = 0
loaded_enough (loaded g) = group_enough g

-- Enough fuel for a render, computed from the templates that the parser gives.
unfoldable pub engine_enough : Engine → List (Text × Renderable) → ℕ
unfolding loaded_enough parse_keys new_group sort_templates template_names
engine_enough g tpls =
    loaded_enough (parse_keys g tpls (sort_templates (template_names tpls)) (new_group g))
