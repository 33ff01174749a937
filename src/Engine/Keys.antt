-- ===== src/Engine/Keys.antt =====
-- The keys of the map of templates, render of tools/helmprov/engine/engine.go.
use cartograph_nvim.Base.{
  Text, text_eq, text_eq_refl, true, ◌≡◌, refl, Bool-cases, inl, inr, List, [], ◌∷◌, is_some,
}
use cartograph_nvim.Tpl.Host.{lookup_key}
use cartograph_nvim.Engine.Order.{sort_templates, insert_name, by_path_len}
use cartograph_nvim.Engine.Render.{Renderable, template_names}

-- Every name of the list is a key.
abbrev pub AllKeys : List (Text × Renderable) → List Text → Type 0
AllKeys tpls [] = Unit {0}
AllKeys tpls (name ∷ names) = (is_some (lookup_key name tpls) ≡ true) × AllKeys tpls names

AllKeys-weaken :
    (name : Text) (r : Renderable) (tpls : List (Text × Renderable)) (names : List Text)
    → AllKeys tpls names
    → AllKeys ((name, r) ∷ tpls) names
unfolding lookup_key
AllKeys-weaken name r tpls [] k = tt
AllKeys-weaken name r tpls (n ∷ names) (s, k) = (
  elim (Bool-cases (text_eq name n)) [ inl b ↦ rw b refl | inr b ↦ rw b s ],
  AllKeys-weaken name r tpls names k,
)

pub AllKeys-names : (tpls : List (Text × Renderable)) → AllKeys tpls (template_names tpls)
unfolding lookup_key template_names
AllKeys-names [] = tt
AllKeys-names ((name, r) ∷ tpls) = (
  rw (text_eq_refl name) refl,
  AllKeys-weaken name r tpls (template_names tpls) (AllKeys-names tpls),
)

AllKeys-insert :
    (tpls : List (Text × Renderable)) (name : Text) (names : List Text)
    → is_some (lookup_key name tpls) ≡ true
    → AllKeys tpls names
    → AllKeys tpls (insert_name name names)
unfolding insert_name
AllKeys-insert tpls name [] s k = (s, tt)
AllKeys-insert tpls name (x ∷ names) s (t, k) = elim (Bool-cases (by_path_len x name)) [
  | inl b ↦ rw b (s, (t, k))
  | inr b ↦ rw b (t, AllKeys-insert tpls name names s k)
]

pub AllKeys-sort :
    (tpls : List (Text × Renderable)) (names : List Text)
    → AllKeys tpls names
    → AllKeys tpls (sort_templates names)
unfolding sort_templates
AllKeys-sort tpls [] k = tt
AllKeys-sort tpls (x ∷ names) (s, k) =
    AllKeys-insert tpls x (sort_templates names) s (AllKeys-sort tpls names k)
