-- ===== src/Engine/Unordered.antt =====
-- A render does not depend on the order in which Go iterates the map of templates, render of
-- tools/helmprov/engine/engine.go.
use cartograph_nvim.Base.{
  ℕ, Text, text_eq, text_eq_flip, text_eq_sound, text_eq_refl, if◌then◌else◌, false, true, ◌≡◌,
  refl, sym, ap, ◌∙◌, Option, Bool-cases, inl, inr, some, List, [], ◌∷◌,
}
use mathlib.Core.Path.{ap₂, subst}
use mathlib.Core.List.{Permᴰ}
use cartograph_nvim.Tpl.Host.{Host, lookup_key}
use cartograph_nvim.Tpl.World.{World, on_option, ◌>>=◌}
use cartograph_nvim.Engine.Order.{sort_templates}
use cartograph_nvim.Engine.Iteration.{sort-permᴰ}
use cartograph_nvim.Engine.Distinct.{IsNew, IsDistinct}
use cartograph_nvim.Engine.Render.{
  Renderable, render_file, render_rest, render_keys, render, template_names,
}
use cartograph_nvim.Engine.Prepare.{
  Engine, Loaded, loaded, refused, recovered, in_group, render_loaded, parse_keys, parse_step,
  new_group, engine_render,
}

abbrev Tpls : Type 0
Tpls = List (Text × Renderable)

names-permᴰ : {xs ys : Tpls} → Permᴰ xs ys → Permᴰ (template_names xs) (template_names ys)
unfolding template_names
names-permᴰ Permᴰ.nil = Permᴰ.nil
names-permᴰ (Permᴰ.cons e p) = Permᴰ.cons (ap (λ x. x.0) e) (names-permᴰ p)
names-permᴰ (Permᴰ.swap e d) = Permᴰ.swap (ap (λ x. x.0) e) (ap (λ x. x.0) d)
names-permᴰ (Permᴰ.trans p q) = Permᴰ.trans (names-permᴰ p) (names-permᴰ q)

IsNew-permᴰ : {xs ys : List Text} (other : Text) → Permᴰ xs ys → IsNew other xs → IsNew other ys
IsNew-permᴰ other Permᴰ.nil i = tt
IsNew-permᴰ other (Permᴰ.cons e p) (n, i) =
    (ap (λ x. text_eq x other) (sym e) ∙ n, IsNew-permᴰ other p i)
IsNew-permᴰ other (Permᴰ.swap e d) (n, (m, i)) =
    (ap (λ x. text_eq x other) (sym d) ∙ m, (ap (λ x. text_eq x other) (sym e) ∙ n, i))
IsNew-permᴰ other (Permᴰ.trans p q) i = IsNew-permᴰ other q (IsNew-permᴰ other p i)

IsDistinct-permᴰ : {xs ys : List Text} → Permᴰ xs ys → IsDistinct xs → IsDistinct ys
IsDistinct-permᴰ Permᴰ.nil i = tt
IsDistinct-permᴰ (Permᴰ.cons {l₂ = ys} e p) (n, i) =
    (subst (λ x. IsNew x ys) e (IsNew-permᴰ _ p n), IsDistinct-permᴰ p i)
IsDistinct-permᴰ (Permᴰ.swap {a} {b} {l = l} e d) ((m, n), (k, i)) = (
  (ap₂ (λ x y. text_eq x y) (sym e) (sym d) ∙ text_eq_flip b a m, subst (λ x. IsNew x l) d k),
  (subst (λ x. IsNew x l) e n, i),
)
IsDistinct-permᴰ (Permᴰ.trans p q) i = IsDistinct-permᴰ q (IsDistinct-permᴰ p i)

abbrev entry_or : Text → Text × Renderable → Option Renderable → Option Renderable
entry_or k x rest = if text_eq x.0 k then some x.1 else rest

lookup_step :
    (k : Text) (x : Text × Renderable) (xs : Tpls)
    → lookup_key k (x ∷ xs) ≡ entry_or k x (lookup_key k xs)
unfolding lookup_key
lookup_step k x xs = refl

lookup_two :
    (k : Text) (x y : Text × Renderable) (xs : Tpls)
    → lookup_key k (x ∷ y ∷ xs) ≡ entry_or k x (entry_or k y (lookup_key k xs))
lookup_two k x y xs = lookup_step k x (y ∷ xs) ∙ ap (entry_or k x) (lookup_step k y xs)

entry_swap :
    (k : Text) (x y : Text × Renderable) (o : Option Renderable)
    → text_eq y.0 x.0 ≡ false
    → entry_or k x (entry_or k y o) ≡ entry_or k y (entry_or k x o)
entry_swap k x y o n = elim (Bool-cases (text_eq x.0 k)) [
  | inl p ↦ elim (Bool-cases (text_eq y.0 k)) [
    | inl q ↦
        let same = text_eq_sound y.0 k q ∙ sym (text_eq_sound x.0 k p) in
        let yes : text_eq y.0 x.0 ≡ true = ap (λ t. text_eq t x.0) same ∙ text_eq_refl x.0 in
        cc (n, yes)
    | inr q ↦ rw (p, q) refl
  ]
  | inr p ↦ rw p refl
]

lookup-permᴰ :
    {xs ys : Tpls} (k : Text)
    → Permᴰ xs ys
    → IsDistinct (template_names xs)
    → lookup_key k xs ≡ lookup_key k ys
unfolding template_names
lookup-permᴰ k Permᴰ.nil i = refl
lookup-permᴰ k (Permᴰ.cons {a = x} {b = y} {l₁ = xs} {l₂ = ys} e p) (n, i) =
    lookup_step k x xs ∙ (ap₂ (entry_or k) e (lookup-permᴰ k p i) ∙ sym (lookup_step k y ys))
lookup-permᴰ k (Permᴰ.swap {a = x} {b = y} {a' = u} {b' = v} {l = l} e d) ((m, n), i) =
    let two : Text × Renderable → Text × Renderable → Option Renderable =
      λ a b. entry_or k a (entry_or k b (lookup_key k l)) in
    lookup_two k x y l
    ∙ (entry_swap k x y (lookup_key k l) m ∙ (ap₂ two d e ∙ sym (lookup_two k u v l)))
lookup-permᴰ k (Permᴰ.trans p q) i =
    lookup-permᴰ k p i ∙ lookup-permᴰ k q (IsDistinct-permᴰ (names-permᴰ p) i)

-- Both loops see the map through its lookups only.
module _ (xs ys : Tpls) (same : (k : Text) → lookup_key k xs ≡ lookup_key k ys) where
  render_keys-same :
      (h : Host) (fuel : ℕ) (names : List Text)
      → render_keys h fuel xs names ≡ render_keys h fuel ys names
  unfolding render_keys
  render_keys-same h fuel [] = refl
  render_keys-same h fuel (name ∷ names) =
      ap₂ (λ o rest. on_option o rest λ r. render_file h fuel name r >>= render_rest name rest)
        (same name) (render_keys-same h fuel names)

  parse_keys-same : (g : Engine) (names : List Text) → parse_keys g xs names ≡ parse_keys g ys names
  unfolding parse_keys
  parse_keys-same g [] = refl
  parse_keys-same g (name ∷ names) =
      ap₂ (λ o rest group. parse_step g name group rest o) (same name) (parse_keys-same g names)

  render_loaded-same :
      (h : Host) (fuel : ℕ) (l : Loaded) (w : World)
      → sort_templates (template_names xs) ≡ sort_templates (template_names ys)
      → render_loaded h fuel xs l w ≡ render_loaded h fuel ys l w
  unfolding render_loaded render
  render_loaded-same h fuel (refused name e) w p = refl
  render_loaded-same h fuel (loaded group) w p =
      ap (λ m. (recovered (m (in_group group w)).0, (m (in_group group w)).1))
        (render_keys-same h fuel (sort_templates (template_names xs))
          ∙ ap (render_keys h fuel ys) p)

-- A rendering of a map of templates is the same, its result, output and recorder, for all the orders in
-- which Go may come to the entries of the map, whose names are distinct.
pub engine_render_unordered :
    (g : Engine) (h : Host) (fuel : ℕ) (xs ys : List (Text × Renderable)) (w : World)
    → IsDistinct (template_names xs)
    → Permᴰ xs ys
    → engine_render g h fuel xs w ≡ engine_render g h fuel ys w
unfolding engine_render
engine_render_unordered g h fuel xs ys w i p =
    let same : (k : Text) → lookup_key k xs ≡ lookup_key k ys = λ k. lookup-permᴰ k p i in
    let names = sort-permᴰ (names-permᴰ p) in
    let start = new_group g in
    let sorted = sort_templates (template_names ys) in
    ap (λ ns. render_loaded h fuel xs (parse_keys g xs ns start) w) names
    ∙ (ap (λ f. render_loaded h fuel xs (f start) w) (parse_keys-same xs ys same g sorted)
        ∙ render_loaded-same xs ys same h fuel (parse_keys g ys sorted start) w names)
