-- ===== src/Engine/Placed.antt =====
-- The scope of each template that a symbolic render collects, recAllTpls of
-- tools/helmprov/engine/engine.go.
use cartograph_nvim.Base.{
  Text, codes, text_eq, has_prefix, true, false, ◌≡◌, refl, sym, Option, none, some, Bool-cases,
  inl, inr, List, [], ◌∷◌, ◌++◌,
}
use mathlib.Core.Path.{subst}
use cartograph_nvim.Tpl.Value.{Value, interface, map_of, Entries, end, map_index}
use cartograph_nvim.Tpl.Host.{set_key}
use cartograph_nvim.Engine.Paths.{path_join}
use cartograph_nvim.Engine.Render.{Renderable, set_entry}
use cartograph_nvim.Engine.Scoping.{IsScope, dependency-IsScope}
use cartograph_nvim.Engine.Collect.{
  Info, Charter, charter, Charters, no_charters, dependency, info_of, Collected, entry_of,
  is_template_valid, scoped_values, next_values, add_templates, rec_all_tpls, rec_subcharts,
}

pub data Among : Charter → Charters → Type 0 where
  first : (d : Charter) (ds : Charters) → Among d (dependency d ds)
  later : (d c : Charter) (ds : Charters) → Among d ds → Among d (dependency c ds)

-- The names of dependencies that lead from the chart `c` to another.
pub data Leads (c : Charter) : List Text → Charter → Type 0 where
  start : Leads c [] c
  down :
      (names : List Text) (info : Info) (ds : Charters) (d : Charter)
      → Leads c names (charter info ds)
      → Among d ds
      → Leads c (names ++ ((info_of d).name ∷ [])) d

-- What a template of the tree of `c` is filed under and rendered with.
pub record IsPlaced (c : Charter) (key : Text) (r : Renderable) : Type 0 where
  pub names : List Text
  pub chart : Charter
  pub led : Leads c names chart
  pub file : Text
  pub filed : key ≡ path_join (info_of chart).full_path file
  pub folder : r.base_path ≡ path_join (info_of chart).full_path (codes "templates")
  pub values : Value
  pub found : map_index r.vals (codes "Values") ≡ some values
  pub scope : IsScope names values

abbrev pub AllPlaced : Charter → Collected → Type 0
AllPlaced c [] = Unit {0}
AllPlaced c ((key, r) ∷ m) = IsPlaced c key r × AllPlaced c m

-- Every dependency at any depth has a parent, and a name that is not empty and does not begin with `[`.
unfoldable mutual
  unfolding info_of codes has_prefix text_eq

  pub WellNamed : Charter → Type 0
  WellNamed (charter info ds) = AllWellNamed ds

  pub AllWellNamed : Charters → Type 0
  AllWellNamed no_charters = Unit {0}
  AllWellNamed (dependency d ds) =
      ((info_of d).is_root ≡ false)
      × ((text_eq (info_of d).name [] ≡ false)
          × ((has_prefix (info_of d).name (codes "[") ≡ false) × (WellNamed d × AllWellNamed ds)))

AllPlaced-set_key :
    (c : Charter) (key : Text) (r : Renderable) (m : Collected)
    → IsPlaced c key r
    → AllPlaced c m
    → AllPlaced c (set_key key r m)
unfolding set_key
AllPlaced-set_key c key r [] p a = (p, tt)
AllPlaced-set_key c key r ((j, q) ∷ m) p (f, a) = elim (Bool-cases (text_eq j key)) [
  | inl b ↦ rw b (p, a)
  | inr b ↦ rw b (f, AllPlaced-set_key c key r m p a)
]

templates-AllPlaced :
    (c : Charter) (names : List Text) (info : Info) (ds : Charters) (next : Entries) (v : Value)
    (ts : List (Option (Text × Text))) (m : Collected)
    → Leads c names (charter info ds)
    → map_index next (codes "Values") ≡ some v
    → IsScope names v
    → AllPlaced c m
    → AllPlaced c (add_templates info next ts m)
unfolding add_templates info_of
templates-AllPlaced c names info ds next v [] m l e s a = a
templates-AllPlaced c names info ds next v (none ∷ ts) m l e s a =
    templates-AllPlaced c names info ds next v ts m l e s a
templates-AllPlaced c names info ds next v (some (name, text) ∷ ts) m l e s a =
    let r : Renderable = record {
      tpl = text;
      vals = next;
      base_path = path_join info.full_path (codes "templates");
    } in
    let key = path_join info.full_path name in
    let placed : IsPlaced c key r = record {
      names = names;
      chart = charter info ds;
      led = l;
      file = name;
      filed = refl;
      folder = refl;
      values = v;
      found = e;
      scope = s;
    } in
    elim (Bool-cases (is_template_valid info name)) [
      | inl b ↦ rw b (
          templates-AllPlaced c names info ds next v ts (set_key key r m) l e s
            (AllPlaced-set_key c key r m placed a))
      | inr b ↦ rw b (templates-AllPlaced c names info ds next v ts m l e s a)
    ]

module _ (table : Entries → Text → Option Entries) (c : Charter) where
  -- `.Values` stands in what a chart hands on, with its `Subcharts` or without.
  all-found :
      (info : Info) (vals : Entries) (subs : Value)
      → map_index
          (set_entry (codes "Subcharts") subs (next_values table true info vals))
          (codes "Values")
        ≡ some (scoped_values table true info vals)
  unfolding next_values map_index set_entry codes text_eq
  all-found info vals subs = refl

  handed_on :
      (info : Info) (vals : Entries)
      → entry_of (next_values table true info vals) (codes "Values")
        ≡ scoped_values table true info vals
  unfolding entry_of next_values map_index set_entry codes text_eq
  handed_on info vals = refl

  dependency_lem :
      (names : List Text) (info : Info) (next : Entries)
      → info.is_root ≡ false
      → text_eq info.name [] ≡ false
      → has_prefix info.name (codes "[") ≡ false
      → IsScope names (entry_of next (codes "Values"))
      → IsScope (names ++ (info.name ∷ [])) (scoped_values table true info next)
  unfolding scoped_values
  dependency_lem names info next root n b s =
      rw root (dependency-IsScope names info.name (entry_of next (codes "Values")) n b s)

  mutual
    unfolding rec_all_tpls info_of WellNamed AllWellNamed

    rec-AllPlaced :
        (names : List Text) (d : Charter) (m : Collected) (vals : Entries)
        → Leads c names d
        → WellNamed d
        → IsScope names (scoped_values table true (info_of d) vals)
        → AllPlaced c m
        → AllPlaced c (rec_all_tpls table true d m vals).1
    rec-AllPlaced names (charter info ds) m vals l w s a =
        let next = next_values table true info vals in
        let below = rec_subcharts table true ds m next end in
        templates-AllPlaced c names info ds
          (set_entry (codes "Subcharts") (interface (map_of below.0)) next)
          (scoped_values table true info vals) info.templates below.1 l
          (all-found info vals (interface (map_of below.0))) s
          (subs-AllPlaced names info ds ds m vals end l (λ d i. i) w s a)

    subs-AllPlaced :
        (names : List Text) (info : Info) (ds es : Charters) (m : Collected) (vals sofar : Entries)
        → Leads c names (charter info ds)
        → ((d : Charter) → Among d es → Among d ds)
        → AllWellNamed es
        → IsScope names (scoped_values table true info vals)
        → AllPlaced c m
        → AllPlaced c (rec_subcharts table true es m (next_values table true info vals) sofar).1
    subs-AllPlaced names info ds no_charters m vals sofar l i w s a = a
    subs-AllPlaced names info ds (dependency d es) m vals sofar l i (root, (n, (b, (w, ws)))) s a =
        let next = next_values table true info vals in
        let sub = rec_all_tpls table true d m next in
        let scope =
          dependency_lem names (info_of d) next root n b
            (subst (λ v. IsScope names v) (sym (handed_on info vals)) s) in
        subs-AllPlaced names info ds es sub.1 vals
          (set_entry (info_of d).name (interface (map_of sub.0)) sofar) l
          (λ x k. i x (later x d es k)) ws s
          (rec-AllPlaced (names ++ ((info_of d).name ∷ [])) d m next
            (down names info ds d l (i d (first d es))) w scope a)
