-- ===== src/Engine/Complete.antt =====
-- Which templates a rendering returns texts for, render of tools/helmprov/engine/engine.go.
use cartograph_nvim.Base.{
  ℕ, Text, true, false, ◌≡◌, refl, sym, ap, ◌∙◌, none, some, Option, Option-cases, Bool-cases, inl,
  inr, ◌⊎◌, ◌≢◌, List, [], ◌∷◌, arith, if◌then◌else◌,
}
use cartograph_nvim.Tpl.Host.{Host, lookup_key, lookup_template}
use cartograph_nvim.Tpl.Run.{execute}
use cartograph_nvim.Tpl.World.{World, Result, ok, panics, M, continue, pure, ◌>>=◌, inner}
use cartograph_nvim.Engine.Order.{sort_templates}
use cartograph_nvim.Engine.Keys.{AllKeys, AllKeys-names, AllKeys-sort}
use cartograph_nvim.Engine.Render.{
  Renderable, Outcome, skipped, rendered, failed, Rendering, done, error, add_text, finish_text,
  finish_outcome, render_file, render_rest, render_keys, template_names, render, is_partial,
  template_vals,
}

-- The names of a list that are no partials'.
unfoldable pub full_names : List Text → List Text
full_names [] = []
full_names (name ∷ names) =
    let rest = full_names names in if is_partial name then rest else name ∷ rest

unfoldable pub names_of : List (Text × Text) → List Text
names_of [] = []
names_of ((name, text) ∷ texts) = name ∷ names_of texts

outcome_skips :
    (name : Text) (x : Result (Text × Option Text) × World)
    → (continue (finish_outcome name) x.0 x.1).0 ≢ ok skipped
unfolding finish_outcome finish_text pure ◌>>=◌
outcome_skips name (panics p, w) = λ e. ground arith
outcome_skips name (ok (raw, some m), w) = λ e. ground arith
outcome_skips name (ok (raw, none), w) = elim (Option-cases w.trace.rec) [
  | inl n ↦ rw n λ e. ground arith
  | inr (r, c) ↦ rw c λ e. ground arith
]

-- What rendering one template leaves out and what it returns.
file_partial :
    (h : Host) (fuel : ℕ) (name : Text) (r : Renderable) (w : World)
    → is_partial name ≡ true
    → (render_file h fuel name r w).0 ≡ ok skipped
unfolding render_file pure
file_partial h fuel name r w p = rw p refl

file_full :
    (h : Host) (fuel : ℕ) (name : Text) (r : Renderable) (w : World)
    → is_partial name ≡ false
    → (render_file h fuel name r w).0 ≢ ok skipped
unfolding render_file ◌>>=◌ inner pure
file_full h fuel name r w p = elim (Option-cases (lookup_template w.inner.group.templates name)) [
  | inl n ↦ rw (p, n) λ e. ground arith
  | inr (t, c) ↦ rw (p, c) (outcome_skips name (execute h fuel t (template_vals name r) w))
]

added_names :
    (name text : Text) (y : Result Rendering × World) (texts : List (Text × Text))
    (names : List Text)
    → ((others : List (Text × Text)) → y.0 ≡ ok (done others) → names_of others ≡ names)
    → (continue (λ k. pure (add_text name text k)) y.0 y.1).0 ≡ ok (done texts)
    → names_of texts ≡ name ∷ names
unfolding pure names_of
added_names name text (panics p, w) texts names others e = ground arith
added_names name text (ok (error n m), w) texts names others e = ground arith
added_names name text (ok (done ts), w) texts names others e =
    let same : (name, text) ∷ ts ≡ texts = ground arith in
    ap names_of (sym same) ∙ ap (λ l. name ∷ l) (others ts refl)

rest_names :
    (name : Text) (rest : M Rendering) (x : Result Outcome × World) (texts : List (Text × Text))
    (names : List Text)
    → ((is_partial name ≡ true) × (x.0 ≡ ok skipped))
      ⊎ ((is_partial name ≡ false) × (x.0 ≢ ok skipped))
    → ((others : List (Text × Text))
        → (rest x.1).0 ≡ ok (done others)
        → names_of others ≡ full_names names)
    → (continue (render_rest name rest) x.0 x.1).0 ≡ ok (done texts)
    → names_of texts ≡ full_names (name ∷ names)
unfolding render_rest ◌>>=◌ pure full_names
rest_names name rest (panics p, w) texts names k others e = ground arith
rest_names name rest (ok (failed m), w) texts names k others e = ground arith
rest_names name rest (ok skipped, w) texts names (inl (p, q)) others e = rw p (others texts e)
rest_names name rest (ok skipped, w) texts names (inr (p, q)) others e = absurd (q refl)
rest_names name rest (ok (rendered t), w) texts names (inl (p, q)) others e = ground arith
rest_names name rest (ok (rendered t), w) texts names (inr (p, q)) others e =
    rw p (added_names name t (rest w) texts (full_names names) others e)

keys_names :
    (h : Host) (fuel : ℕ) (tpls : List (Text × Renderable)) (names : List Text) (w : World)
    (texts : List (Text × Text))
    → AllKeys tpls names
    → (render_keys h fuel tpls names w).0 ≡ ok (done texts)
    → names_of texts ≡ full_names names
unfolding render_keys ◌>>=◌ pure full_names
keys_names h fuel tpls [] w texts k =
    λ e. let same : [] ≡ texts = ground arith in unfold names_of in ap names_of (sym same)
keys_names h fuel tpls (name ∷ names) w texts (s, k) = elim (Option-cases (lookup_key name tpls)) [
  | inl c ↦ ground arith
  | inr (r, c) ↦
      let x = render_file h fuel name r w in
      rw (render_keys, c)
        λ e.
          rest_names name (render_keys h fuel tpls names) x texts names
            (elim (Bool-cases (is_partial name)) [
              | inl p ↦ inl (p, file_partial h fuel name r w p)
              | inr p ↦ inr (p, file_full h fuel name r w p)
            ])
            (λ others. keys_names h fuel tpls names x.1 others k) e
]

-- A rendering that ends without an error has one text for each template that is no partial, in the
-- order of the sorted names, and no other.
pub render_names :
    (h : Host) (fuel : ℕ) (tpls : List (Text × Renderable)) (w : World) (texts : List (Text × Text))
    → (render h fuel tpls w).0 ≡ ok (done texts)
    → names_of texts ≡ full_names (sort_templates (template_names tpls))
unfolding render
render_names h fuel tpls w texts =
    keys_names h fuel tpls (sort_templates (template_names tpls)) w texts
      (AllKeys-sort tpls (template_names tpls) (AllKeys-names tpls))
