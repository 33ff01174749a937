-- ===== src/Tpl/Halting/Spare.antt =====
-- How many includes are left to a chart: `include` of tools/helmprov/engine/engine.go counts those of
-- a name that run, and refuses one above `recursion_max_nums`.
use cartograph_nvim.Base.{
  ℕ, suc, ◌+◌, ◌-◌, ◌≤◌, Text, text_eq, text_eq_sound, text_eq_refl, ◌≡◌, refl, sym, ap, Bool-cases,
  inl, inr, some, List, [], ◌∷◌, if◌then◌else◌, arith, text_eq_same, text_eq_differ,
}
use cartograph_nvim.Tpl.Host.{Template, lookup_template, lookup_key, set_key}
use cartograph_nvim.Tpl.Call.{included_count, recursion_max_nums}

-- What is left to the names of the templates.
unfoldable pub spare : List Template → List (Text × ℕ) → ℕ
spare [] m = 0
spare (t ∷ ts) m = (1001 - included_count t.name m) + spare ts m

pub lookup-set {ℓ} :
    {A : Type ℓ} (k j : Text) (a : A) (m : List (Text × A))
    → lookup_key j (set_key k a m) ≡ (if text_eq k j then some a else lookup_key j m)
unfolding lookup_key set_key
lookup-set k j a [] = refl
lookup-set k j a ((i, b) ∷ m) = elim (Bool-cases (text_eq i k)) [
  | inl t ↦ ground (arith, text_eq_same i k j t)
  | inr f ↦ elim (Bool-cases (text_eq i j)) [
    | inl e ↦ rw (f, e, text_eq_differ i k j f e) refl
    | inr e ↦ ground (arith, lookup-set k j a m)
  ]
]

pub count-set :
    (k j : Text) (n : ℕ) (m : List (Text × ℕ))
    → included_count j (set_key k n m) ≡ (if text_eq k j then n else included_count j m)
unfolding included_count
count-set k j n m = elim (Bool-cases (text_eq k j)) [
  | inl t ↦ ground (arith, lookup-set k j n m)
  | inr f ↦ ground (arith, lookup-set k j n m)
]

-- Every name counts at least what it counted.
abbrev pub Grows : List (Text × ℕ) → List (Text × ℕ) → Type 0
Grows m m' = (k : Text) → included_count k m ≤ included_count k m'

pub spare-Grows :
    (ts : List Template) (m m' : List (Text × ℕ)) → Grows m m' → spare ts m' ≤ spare ts m
unfolding spare
spare-Grows [] m m' g = omega arith
spare-Grows (t ∷ ts) m m' g = omega (arith, g t.name, spare-Grows ts m m' g)

pub Grows-set :
    (name : Text) (n : ℕ) (m : List (Text × ℕ))
    → included_count name m ≤ n
    → Grows m (set_key name n m)
Grows-set name n m l k = elim (Bool-cases (text_eq name k)) [
  | inl t ↦
      let e : included_count name m ≡ included_count k m =
        ap (λ x. included_count x m) (text_eq_sound name k t) in
      ground (arith, count-set name k n m)
  | inr f ↦ ground (arith, count-set name k n m)
]

-- One more include of a template that is there leaves less.
pub spare-set :
    (ts : List Template) (name : Text) (t : Template) (m : List (Text × ℕ))
    → lookup_template ts name ≡ some t
    → included_count name m ≤ recursion_max_nums
    → suc (spare ts (set_key name (included_count name m + 1) m)) ≤ spare ts m
unfolding spare lookup_template
spare-set [] name t m e l = cc
spare-set (u ∷ ts) name t m e l =
    let n = included_count name m + 1 in
    let more = Grows-set name n m (omega arith) in
    let others = spare-Grows ts m (set_key name n m) more in
    elim (Bool-cases (text_eq u.name name)) [
      | inl k ↦
          let same = text_eq_sound u.name name k in
          let here : included_count u.name (set_key name n m) ≡ n =
            rw (same, count-set name name n m, text_eq_refl name) refl in
          let before : included_count u.name m ≡ included_count name m =
            ap (λ x. included_count x m) same in
          omega (arith, others, here, before)
      | inr k ↦ omega (arith, more u.name, spare-set ts name t m (ground arith) l)
    ]

-- After an include its name counts what it counted, or more.
pub Grows-back :
    (name : Text) (m m' : List (Text × ℕ))
    → Grows (set_key name (included_count name m + 1) m) m'
    → Grows m (set_key name (included_count name m' - 1) m')
Grows-back name m m' g k = elim (Bool-cases (text_eq name k)) [
  | inl t ↦
      let n = included_count name m + 1 in
      let here : included_count name (set_key name n m) ≡ n =
        rw (count-set name name n m, text_eq_refl name) refl in
      let same : included_count k m ≡ included_count name m =
        ap (λ x. included_count x m) (sym (text_eq_sound name k t)) in
      rw (count-set name k (included_count name m' - 1) m', t) (omega (arith, g name, here, same))
  | inr f ↦
      let there : included_count k (set_key name (included_count name m + 1) m)
          ≡ included_count k m =
        rw (count-set name k (included_count name m + 1) m, f) refl in
      rw (count-set name k (included_count name m' - 1) m', f) (omega (arith, g k, there))
]
