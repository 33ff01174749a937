-- ===== src/Engine/Collected.antt =====
-- What is collected of a chart and its dependencies: allTemplates of tools/helmprov/engine/engine.go.
use cartograph_nvim.Engine.Prepare.{Engine}
use cartograph_nvim.Engine.Prepared.{engine_render_tiles}
use cartograph_nvim.Base.{
  ℕ, Text, codes, text_eq, text_eq_flip, text_eq_sound, Bool, false, ◌≡◌, Option, none, some,
  Bool-cases, inl, inr, List, [], ◌∷◌,
}
use mathlib.Core.Path.{subst}
use cartograph_nvim.Tpl.Value.{Value, interface, map_of, Entries, end}
use cartograph_nvim.Tpl.Host.{Host, set_key}
use cartograph_nvim.Tpl.Record.{Recorder}
use cartograph_nvim.Tpl.World.{World, ok}
use cartograph_nvim.Engine.Distinct.{IsNew, IsDistinct}
use cartograph_nvim.Engine.Paths.{path_join}
use cartograph_nvim.Engine.Render.{Renderable, template_names, done, set_entry}
use cartograph_nvim.Engine.Rendered.{AllTile}
use cartograph_nvim.Engine.Collect.{
  Info, Charter, charter, Charters, no_charters, dependency, info_of, Collected, is_template_valid,
  next_values, add_templates, rec_all_tpls, rec_subcharts, all_templates, render_with_context,
}

IsNew-set_key :
    (other k : Text) (r : Renderable) (m : Collected)
    → text_eq k other ≡ false
    → IsNew other (template_names m)
    → IsNew other (template_names (set_key k r m))
unfolding set_key template_names
IsNew-set_key other k r [] n new = (n, tt)
IsNew-set_key other k r ((j, q) ∷ m) n (f, new) = elim (Bool-cases (text_eq j k)) [
  | inl b ↦ rw b (n, new)
  | inr b ↦ rw b (f, IsNew-set_key other k r m n new)
]

IsDistinct-set_key :
    (k : Text) (r : Renderable) (m : Collected)
    → IsDistinct (template_names m)
    → IsDistinct (template_names (set_key k r m))
unfolding set_key template_names
IsDistinct-set_key k r [] d = (tt, tt)
IsDistinct-set_key k r ((j, q) ∷ m) (new, d) = elim (Bool-cases (text_eq j k)) [
  | inl b ↦ rw b (subst (λ x. IsNew x (template_names m)) (text_eq_sound j k b) new, d)
  | inr b ↦ rw b (IsNew-set_key j k r m (text_eq_flip j k b) new, IsDistinct-set_key k r m d)
]

-- What every addition of a template keeps holds of all that is collected.
module _ (table : Entries → Text → Option Entries) (symbolic : Bool) (IsGood : Entries → Type 0)
    (good : (info : Info) (vals : Entries) (subs : Value)
      → IsGood (set_entry (codes "Subcharts") subs (next_values table symbolic info vals)))
    (P : Collected → Type 0)
    (added : (k : Text) (r : Renderable) (m : Collected)
      → IsGood r.vals
      → P m
      → P (set_key k r m)) where
  templates_keep :
      (info : Info) (next : Entries) (ts : List (Option (Text × Text))) (m : Collected)
      → IsGood next
      → P m
      → P (add_templates info next ts m)
  unfolding add_templates
  templates_keep info next [] m g i = i
  templates_keep info next (none ∷ ts) m g i = templates_keep info next ts m g i
  templates_keep info next (some (name, text) ∷ ts) m g i =
      let r : Renderable = record {
        tpl = text;
        vals = next;
        base_path = path_join info.full_path (codes "templates");
      } in
      elim (Bool-cases (is_template_valid info name)) [
        | inl b ↦ rw b (
            templates_keep info next ts (set_key (path_join info.full_path name) r m) g
              (added (path_join info.full_path name) r m g i))
        | inr b ↦ rw b (templates_keep info next ts m g i)
      ]

  mutual
    unfolding rec_all_tpls

    pub rec_keeps :
        (c : Charter) (m : Collected) (vals : Entries)
        → P m
        → P (rec_all_tpls table symbolic c m vals).1
    rec_keeps (charter info subs) m vals i =
        let next = next_values table symbolic info vals in
        let below = rec_subcharts table symbolic subs m next end in
        templates_keep info (set_entry (codes "Subcharts") (interface (map_of below.0)) next)
          info.templates below.1 (good info vals (interface (map_of below.0)))
          (subs_keep subs m next end i)

    pub subs_keep :
        (cs : Charters) (m : Collected) (next sofar : Entries)
        → P m
        → P (rec_subcharts table symbolic cs m next sofar).1
    subs_keep no_charters m next sofar i = i
    subs_keep (dependency c cs) m next sofar i =
        let sub = rec_all_tpls table symbolic c m next in
        subs_keep cs sub.1 next (set_entry (info_of c).name (interface (map_of sub.0)) sofar)
          (rec_keeps c m next i)

pub all_templates-IsDistinct :
    (table : Entries → Text → Option Entries) (symbolic : Bool) (c : Charter) (vals : Entries)
    → IsDistinct (template_names (all_templates table symbolic c vals))
unfolding all_templates
all_templates-IsDistinct table symbolic c vals =
    rec_keeps table symbolic (λ es. Unit {0}) (λ info vals subs. tt)
      (λ m. IsDistinct (template_names m)) (λ k r m g. IsDistinct-set_key k r m) c [] vals
      (unfold template_names in tt)

-- A rendering of a chart that ends without an error, under a recorder that is not symbolic and with no
-- render running, has for each text that it returns spans on file that tile the text.
pub chart_tiles :
    (g : Engine) (h : Host) (fuel : ℕ) (table : Entries → Text → Option Entries) (symbolic : Bool)
    (c : Charter) (vals : Entries) (w : World) (r : Recorder) (texts : List (Text × Text))
    → w.trace.rec ≡ some r
    → r.depth ≡ 0
    → r.symbolic ≡ false
    → (render_with_context table symbolic g h fuel c vals w).0 ≡ ok (done texts)
    → AllTile texts (render_with_context table symbolic g h fuel c vals w).1
unfolding render_with_context
chart_tiles g h fuel table symbolic c vals w r texts e d s =
    engine_render_tiles g h fuel (all_templates table symbolic c vals) w r texts e d s
      (all_templates-IsDistinct table symbolic c vals)
