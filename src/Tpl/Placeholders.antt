-- ===== src/Tpl/Placeholders.antt =====
-- Paths of placeholders, `field` and `inner` of tools/helmprov/tpl/prov.go.
use cartograph_nvim.Base.{
  Text, codes, text_eq, ◌≡◌, refl, Bool-cases, inl, inr, Bool, false, [], ◌∷◌, ◌++◌, if◌then◌else◌,
}
use cartograph_nvim.Tpl.Sym
use cartograph_nvim.Tpl.Sym.{Sym, field, separator, is_empty}

-- A placeholder for `.Values` itself.
abbrev pub is_root : Sym → Bool
is_root y = if is_empty y.expr then is_empty y.path else false

abbrev pub joint : Sym → Text → Text
joint y f = if is_root y then codes "." else separator f

append_nonempty : (a b : Text) → text_eq a [] ≡ false → text_eq (a ++ b) [] ≡ false
unfolding text_eq
append_nonempty [] b e = cc
append_nonempty (x ∷ a) b e = refl

-- One segment further, the expression that a placeholder stands for is the old one, a joint and the
-- segment. The joint is a dot, except that an element segment joins without one; on `.Values` itself
-- the dot stands before an element segment too.
pub inner-field :
    (y : Sym) (f : Text)
    → text_eq f [] ≡ false
    → Sym.inner (field y f) ≡ Sym.inner y ++ (joint y f ++ f)
unfolding Sym.inner field codes
inner-field y f e = elim (Bool-cases (text_eq y.expr [])) [
  | inl p ↦ elim (Bool-cases (text_eq y.path [])) [
    | inl q ↦ rw (p, q, e) refl
    | inr q ↦ rw (p, q, append_nonempty y.path (separator f ++ f) q) refl
  ]
  | inr p ↦ rw (p, append_nonempty y.expr (separator f ++ f) p) refl
]
