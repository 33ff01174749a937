-- ===== src/Engine/Scoping.antt =====
-- The `.Values` of the charts in a symbolic render, recAllTpls of tools/helmprov/engine/engine.go.
use cartograph_nvim.Base.{
  Text, codes, has_prefix, text_eq, Bool, true, false, ◌≡◌, refl, sym, ap, ◌∙◌, Bool-cases, inl,
  inr, none, some, List, [], ◌∷◌, ◌++◌, if◌then◌else◌,
}
use mathlib.Core.List.{append_assoc, append-nil}
use cartograph_nvim.Tpl.Sym
use cartograph_nvim.Tpl.Sym.{Sym, field, separator, is_empty}
use cartograph_nvim.Tpl.Value.{Value, interface, sym_of}
use cartograph_nvim.Tpl.Placeholders.{inner-field, joint}

-- The `.Values` of a chart, given whether it is the root, its name and the parent's `.Values`.
unfoldable pub symbolic_values : Bool → Text → Value → Value
unfolding sym_of field
symbolic_values root name parent =
    if root then Value.sym (record { path = []; expr = [] }) else elim (sym_of parent) [
      | none ↦ Value.sym (record { path = name; expr = [] })
      | some y ↦ Value.sym (field y name)
    ]

abbrev pub dotted : List Text → Text
dotted [] = []
dotted (name ∷ names) = codes "." ++ (name ++ dotted names)

joint_dot : (y : Sym) (name : Text) → has_prefix name (codes "[") ≡ false → joint y name ≡ codes "."
unfolding separator
joint_dot y name p = elim (Bool-cases (is_empty y.expr)) [
  | inl e ↦ elim (Bool-cases (is_empty y.path)) [
    | inl q ↦ rw (e, q) refl
    | inr q ↦ rw (e, q, separator, p) refl
  ]
  | inr e ↦ rw (e, separator, p) refl
]

-- The `.Values` of a chart is a placeholder for `.Values`, followed for each of the names by a dot and
-- the name.
pub record IsScope (names : List Text) (v : Value) : Type 0 where
  pub place : Sym
  pub placed : sym_of v ≡ some place
  pub path : Sym.inner place ≡ codes ".Values" ++ dotted names

pub root-IsScope :
    (name : Text) (parent : Value) → IsScope [] (interface (symbolic_values true name parent))
unfolding symbolic_values sym_of
root-IsScope name parent = record {
  place = record { path = []; expr = [] };
  placed = refl;
  path = unfold Sym.inner text_eq codes in refl;
}

dotted-append :
    (names : List Text) (name : Text)
    → dotted (names ++ (name ∷ [])) ≡ dotted names ++ (codes "." ++ name)
dotted-append [] name = ap (λ t. codes "." ++ t) (append-nil name)
dotted-append (n ∷ names) name =
    ap (λ t. codes "." ++ (n ++ t)) (dotted-append names name)
    ∙ (ap (λ t. codes "." ++ t) (sym (append_assoc n (dotted names) (codes "." ++ name)))
        ∙ sym (append_assoc (codes ".") (n ++ dotted names) (codes "." ++ name)))

pub dependency-IsScope :
    (names : List Text) (name : Text) (parent : Value)
    → text_eq name [] ≡ false
    → has_prefix name (codes "[") ≡ false
    → IsScope names parent
    → IsScope (names ++ (name ∷ [])) (interface (symbolic_values false name parent))
unfolding symbolic_values sym_of
dependency-IsScope names name parent e p s =
    let y = s.place in
    let step : Sym.inner (field y name) ≡ Sym.inner y ++ (codes "." ++ name) =
      inner-field y name e ∙ ap (λ j. Sym.inner y ++ (j ++ name)) (joint_dot y name p) in
    record {
      place = field y name;
      placed = rw s.placed refl;
      path =
          step
          ∙ (ap (λ t. t ++ (codes "." ++ name)) s.path
              ∙ (append_assoc (codes ".Values") (dotted names) (codes "." ++ name)
                  ∙ ap (λ t. codes ".Values" ++ t) (sym (dotted-append names name))));
    }
