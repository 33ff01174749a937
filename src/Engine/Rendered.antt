-- ===== src/Engine/Rendered.antt =====
-- What rendering all templates leaves on file, render of tools/helmprov/engine/engine.go.
use cartograph_nvim.Base.{
  ℕ, Text, false, ◌≡◌, refl, ap, ◌∙◌, some, Option-cases, inl, inr, List, [], ◌∷◌, arith,
}
use mathlib.Core.Path.{subst}
use cartograph_nvim.Tpl.Host.{Host, lookup_key}
use cartograph_nvim.Tpl.Record.{Recorder}
use cartograph_nvim.Tpl.World.{World, Result, ok, panics, M, continue, pure, ◌>>=◌}
use cartograph_nvim.Tpl.Balance.{frame_in}
use cartograph_nvim.Tpl.Balance.Frame.{frame, frame_of}
use cartograph_nvim.Tpl.Filing.{filed}
use cartograph_nvim.Engine.Order.{sort_templates}
use cartograph_nvim.Engine.Distinct.{IsNew, IsDistinct, IsDistinct-sort}
use cartograph_nvim.Engine.Render.{
  Renderable, Outcome, skipped, rendered, failed, Rendering, done, error, add_text, render_file,
  render_rest, render_keys, template_names, render,
}
use cartograph_nvim.Engine.Filed.{IsTop, HasTiles, file-frame, file_files, file-HasTiles}

-- Each text is tiled by the spans on file under its name.
abbrev pub AllTile : List (Text × Text) → World → Type 0
AllTile [] w = Unit {0}
AllTile ((name, text) ∷ texts) w = HasTiles name text w × AllTile texts w

pub added_world :
    (f : Rendering → Rendering) (y : Result Rendering × World)
    → (continue (λ k. pure (f k)) y.0 y.1).1 ≡ y.1
unfolding pure
added_world f (ok k, w) = refl
added_world f (panics p, w) = refl

-- The templates after one change what a view shows as little as they do from where it ends.
rest_view :
    {V : Type 0} (view : World → V) (name : Text) (rest : M Rendering) (x : Result Outcome × World)
    → view (rest x.1).1 ≡ view x.1
    → view (continue (render_rest name rest) x.0 x.1).1 ≡ view x.1
unfolding render_rest ◌>>=◌ pure
rest_view view name rest (panics p, w) e = refl
rest_view view name rest (ok skipped, w) e = e
rest_view view name rest (ok (failed m), w) e = refl
rest_view view name rest (ok (rendered t), w) e =
    ap view (added_world (add_text name t) (rest w)) ∙ e

keys-frame :
    (h : Host) (fuel : ℕ) (tpls : List (Text × Renderable)) (names : List Text) (w : World)
    → frame_in (render_keys h fuel tpls names w).1 ≡ frame_in w
unfolding render_keys ◌>>=◌ pure
keys-frame h fuel tpls [] w = refl
keys-frame h fuel tpls (name ∷ names) w = elim (Option-cases (lookup_key name tpls)) [
  | inl n ↦ rw n (keys-frame h fuel tpls names w)
  | inr (r, e) ↦
      let x = render_file h fuel name r w in
      rw e (
        rest_view (λ w. frame_in w) name (render_keys h fuel tpls names) x
          (keys-frame h fuel tpls names x.1)
        ∙ file-frame h fuel name r w)
]

IsTop-same : (w w' : World) → frame_in w' ≡ frame_in w → IsTop w → IsTop w'
IsTop-same w w' e (f, k, d, s) = (f, e ∙ k, d, s)

keys_files :
    (h : Host) (fuel : ℕ) (tpls : List (Text × Renderable)) (names : List Text) (other : Text)
    (w : World)
    → IsTop w
    → IsNew other names
    → filed other (render_keys h fuel tpls names w).1.trace.rec ≡ filed other w.trace.rec
unfolding render_keys ◌>>=◌ pure
keys_files h fuel tpls [] other w top new = refl
keys_files h fuel tpls (name ∷ names) other w top (n, new) =
    elim (Option-cases (lookup_key name tpls)) [
      | inl c ↦ rw c (keys_files h fuel tpls names other w top new)
      | inr (r, e) ↦
          let x = render_file h fuel name r w in
          let after = IsTop-same w x.1 (file-frame h fuel name r w) top in
          rw e (
            rest_view (λ w. filed other w.trace.rec) name (render_keys h fuel tpls names) x
              (keys_files h fuel tpls names other x.1 after new)
            ∙ file_files h fuel name other r w top n)
    ]

added-AllTile :
    (name text : Text) (y : Result Rendering × World) (texts : List (Text × Text))
    → HasTiles name text y.1
    → ((others : List (Text × Text)) → y.0 ≡ ok (done others) → AllTile others y.1)
    → (continue (λ k. pure (add_text name text k)) y.0 y.1).0 ≡ ok (done texts)
    → AllTile texts (continue (λ k. pure (add_text name text k)) y.0 y.1).1
unfolding pure
added-AllTile name text (panics p, w) texts own others e = ground arith
added-AllTile name text (ok (error n m), w) texts own others e = ground arith
added-AllTile name text (ok (done ts), w) texts own others e =
    let same : (name, text) ∷ ts ≡ texts = ground arith in
    subst (λ l. AllTile l w) same (own, others ts refl)

rest-AllTile :
    (name : Text) (rest : M Rendering) (x : Result Outcome × World) (texts : List (Text × Text))
    → filed name (rest x.1).1.trace.rec ≡ filed name x.1.trace.rec
    → ((text : Text) → x.0 ≡ ok (rendered text) → HasTiles name text x.1)
    → ((others : List (Text × Text))
        → (rest x.1).0 ≡ ok (done others)
        → AllTile others (rest x.1).1)
    → (continue (render_rest name rest) x.0 x.1).0 ≡ ok (done texts)
    → AllTile texts (continue (render_rest name rest) x.0 x.1).1
unfolding render_rest ◌>>=◌ pure
rest-AllTile name rest (panics p, w) texts k own others e = ground arith
rest-AllTile name rest (ok skipped, w) texts k own others e = others texts e
rest-AllTile name rest (ok (failed m), w) texts k own others e = ground arith
rest-AllTile name rest (ok (rendered t), w) texts k own others e =
    let (spans, f, g) = own t refl in added-AllTile name t (rest w) texts (spans, k ∙ f, g) others e

keys-AllTile :
    (h : Host) (fuel : ℕ) (tpls : List (Text × Renderable)) (names : List Text) (w : World)
    (texts : List (Text × Text))
    → IsTop w
    → IsDistinct names
    → (render_keys h fuel tpls names w).0 ≡ ok (done texts)
    → AllTile texts (render_keys h fuel tpls names w).1
unfolding render_keys ◌>>=◌ pure
keys-AllTile h fuel tpls [] w texts top distinct =
    λ e. let same : [] ≡ texts = ground arith in subst (λ l. AllTile l w) same tt
keys-AllTile h fuel tpls (name ∷ names) w texts top (new, distinct) =
    elim (Option-cases (lookup_key name tpls)) [
      | inl c ↦ rw c (keys-AllTile h fuel tpls names w texts top distinct)
      | inr (r, e) ↦
          let x = render_file h fuel name r w in
          let after = IsTop-same w x.1 (file-frame h fuel name r w) top in
          rw e (
            rest-AllTile name (render_keys h fuel tpls names) x texts
              (keys_files h fuel tpls names name x.1 after new)
              (λ t. file-HasTiles h fuel name t r w top)
              λ others. keys-AllTile h fuel tpls names x.1 others after distinct)
    ]

-- Where a recorder that is not symbolic is active and no render runs, a rendering of the templates of a
-- map that ends without an error has, for each text that it returns, spans on file under the text's
-- name that tile the text.
pub render_tiles :
    (h : Host) (fuel : ℕ) (tpls : List (Text × Renderable)) (w : World) (r : Recorder)
    (texts : List (Text × Text))
    → w.trace.rec ≡ some r
    → r.depth ≡ 0
    → r.symbolic ≡ false
    → IsDistinct (template_names tpls)
    → (render h fuel tpls w).0 ≡ ok (done texts)
    → AllTile texts (render h fuel tpls w).1
unfolding render
render_tiles h fuel tpls w r texts e d s distinct =
    keys-AllTile h fuel tpls (sort_templates (template_names tpls)) w texts
      (frame_of r, ap frame e, d, s) (IsDistinct-sort (template_names tpls) distinct)
