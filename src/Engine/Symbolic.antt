-- ===== src/Engine/Symbolic.antt =====
-- In a symbolic render every collected template gets a placeholder for its values, recAllTpls of
-- tools/helmprov/engine/engine.go.
use cartograph_nvim.Base.{
  Text, codes, text_eq, Bool, true, false, ◌≡◌, refl, Option, some, Option-cases, Bool-cases, inl,
  inr, [], ◌∷◌,
}
use cartograph_nvim.Tpl.Sym.{Sym}
use cartograph_nvim.Tpl.Value.{Value, interface, Entries, map_index, sym_of}
use cartograph_nvim.Tpl.Host.{set_key}
use cartograph_nvim.Engine.Render.{Renderable, set_entry}
use cartograph_nvim.Engine.Scoping.{symbolic_values}
use cartograph_nvim.Engine.Collect.{
  Info, Charter, Collected, next_values, scoped_values, all_templates, entry_of,
}
use cartograph_nvim.Engine.Collected.{rec_keeps}

-- `.Values` is a placeholder.
abbrev pub HasPlaceholder : Entries → Type 0
HasPlaceholder es =
    (v : Value) × (y : Sym) × (map_index es (codes "Values") ≡ some v) × (sym_of v ≡ some y)

abbrev pub AllPlaceholders : Collected → Type 0
AllPlaceholders [] = Unit {0}
AllPlaceholders ((name, r) ∷ m) = HasPlaceholder r.vals × AllPlaceholders m

AllPlaceholders-set_key :
    (k : Text) (r : Renderable) (m : Collected)
    → HasPlaceholder r.vals
    → AllPlaceholders m
    → AllPlaceholders (set_key k r m)
unfolding set_key
AllPlaceholders-set_key k r [] g a = (g, tt)
AllPlaceholders-set_key k r ((j, q) ∷ m) g (f, a) = elim (Bool-cases (text_eq j k)) [
  | inl b ↦ rw b (g, a)
  | inr b ↦ rw b (f, AllPlaceholders-set_key k r m g a)
]

symbolic_values-sym_of :
    (root : Bool) (name : Text) (parent : Value)
    → (y : Sym) × (sym_of (interface (symbolic_values root name parent)) ≡ some y)
unfolding symbolic_values sym_of
symbolic_values-sym_of true name parent = (_, refl)
symbolic_values-sym_of false name parent = elim (Option-cases (sym_of parent)) [
  | inl c ↦ rw c (_, refl)
  | inr (y, c) ↦ rw c (_, refl)
]

next_values-lookup :
    (table : Entries → Text → Option Entries) (symbolic : Bool) (info : Info) (vals : Entries)
    (subs : Value)
    → map_index
        (set_entry (codes "Subcharts") subs (next_values table symbolic info vals))
        (codes "Values")
      ≡ some (scoped_values table symbolic info vals)
unfolding next_values
next_values-lookup table symbolic info vals subs = refl

next_values-HasPlaceholder :
    (table : Entries → Text → Option Entries) (info : Info) (vals : Entries) (subs : Value)
    → HasPlaceholder (set_entry (codes "Subcharts") subs (next_values table true info vals))
unfolding scoped_values
next_values-HasPlaceholder table info vals subs =
    let (y, e) = symbolic_values-sym_of info.is_root info.name (entry_of vals (codes "Values")) in
    (scoped_values table true info vals, y, next_values-lookup table true info vals subs, e)

-- In a symbolic render the `.Values` of every template that is collected, of the chart or of a
-- dependency, is a placeholder, whatever the values are.
pub all_templates-AllPlaceholders :
    (table : Entries → Text → Option Entries) (c : Charter) (vals : Entries)
    → AllPlaceholders (all_templates table true c vals)
unfolding all_templates
all_templates-AllPlaceholders table c vals =
    rec_keeps table true HasPlaceholder (next_values-HasPlaceholder table) AllPlaceholders
      AllPlaceholders-set_key c [] vals tt
