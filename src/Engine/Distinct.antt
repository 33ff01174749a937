-- ===== src/Engine/Distinct.antt =====
-- Sorting keeps the names of templates distinct, sortTemplates of tools/helmprov/engine/engine.go.
use cartograph_nvim.Base.{
  Text, text_eq, text_eq_flip, false, ◌≡◌, Bool-cases, inl, inr, List, [], ◌∷◌,
}
use cartograph_nvim.Engine.Order.{sort_templates, insert_name, by_path_len}

abbrev pub IsNew : Text → List Text → Type 0
IsNew other [] = Unit {0}
IsNew other (name ∷ names) = (text_eq name other ≡ false) × IsNew other names

abbrev pub IsDistinct : List Text → Type 0
IsDistinct [] = Unit {0}
IsDistinct (name ∷ names) = IsNew name names × IsDistinct names

IsNew-insert :
    (other name : Text) (names : List Text)
    → text_eq name other ≡ false
    → IsNew other names
    → IsNew other (insert_name name names)
unfolding insert_name
IsNew-insert other name [] n new = (n, tt)
IsNew-insert other name (x ∷ names) n (m, new) = elim (Bool-cases (by_path_len x name)) [
  | inl b ↦ rw b (n, (m, new))
  | inr b ↦ rw b (m, IsNew-insert other name names n new)
]

IsDistinct-insert :
    (name : Text) (names : List Text)
    → IsNew name names
    → IsDistinct names
    → IsDistinct (insert_name name names)
unfolding insert_name
IsDistinct-insert name [] new d = (tt, tt)
IsDistinct-insert name (x ∷ names) (n, new) (m, d) = elim (Bool-cases (by_path_len x name)) [
  | inl b ↦ rw b ((n, new), (m, d))
  | inr b ↦
      rw b (IsNew-insert x name names (text_eq_flip x name n) m, IsDistinct-insert name names new d)
]

IsNew-sort :
    (other : Text) (names : List Text) → IsNew other names → IsNew other (sort_templates names)
unfolding sort_templates
IsNew-sort other [] new = tt
IsNew-sort other (x ∷ names) (n, new) =
    IsNew-insert other x (sort_templates names) n (IsNew-sort other names new)

pub IsDistinct-sort : (names : List Text) → IsDistinct names → IsDistinct (sort_templates names)
unfolding sort_templates
IsDistinct-sort [] d = tt
IsDistinct-sort (x ∷ names) (new, d) =
    IsDistinct-insert x (sort_templates names) (IsNew-sort x names new) (IsDistinct-sort names d)
