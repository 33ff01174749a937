-- ===== src/Engine/Order.antt =====
-- The order in which templates are parsed and rendered, sortTemplates and byPathLen of
-- tools/helmprov/engine/engine.go.
use cartograph_nvim.Base.{
  ℕ, suc, Text, Bool, true, false, ◌≡◌, List, [], ◌∷◌, if◌then◌else◌, ltb, ◌==◌, Bool-cases, inl,
  inr, arith, refl, ◌⊎◌, ◌<◌,
}
use mathlib.Core.List.{Perm}
use mathlib.Core.List.Perm

-- Go's `<` on strings
unfoldable pub text_lt : Text → Text → Bool
text_lt [] [] = false
text_lt [] (b ∷ t) = true
text_lt (a ∷ s) [] = false
text_lt (a ∷ s) (b ∷ t) = let rest = text_lt s t in if a == b then rest else ltb a b

-- strings.Count(s, "/")
unfoldable pub slashes : Text → ℕ
slashes [] = 0
slashes (c ∷ s) = if c == 0x2F then suc (slashes s) else slashes s

-- byPathLen.Less
unfoldable pub by_path_len : Text → Text → Bool
unfolding slashes text_lt
by_path_len a b = if slashes a == slashes b then text_lt a b else ltb (slashes a) (slashes b)

-- sort.Reverse
abbrev pub comes_before : Text → Text → Bool
comes_before a b = by_path_len b a

unfoldable pub insert_name : Text → List Text → List Text
insert_name x [] = x ∷ []
insert_name x (y ∷ ys) =
    let rest = insert_name x ys in if by_path_len y x then x ∷ y ∷ ys else y ∷ rest

-- The names of a map's entries, sorted; no two are equal, so every sort gives this list.
unfoldable pub sort_templates : List Text → List Text
unfolding insert_name
sort_templates [] = []
sort_templates (x ∷ xs) = insert_name x (sort_templates xs)

pub text_lt_trans : (a b c : Text) → text_lt a b ≡ true → text_lt b c ≡ true → text_lt a c ≡ true
unfolding text_lt
text_lt_trans [] [] c p q = ground arith
text_lt_trans [] (y ∷ b) [] p q = ground arith
text_lt_trans [] (y ∷ b) (z ∷ c) p q = refl
text_lt_trans (x ∷ a) [] c p q = ground arith
text_lt_trans (x ∷ a) (y ∷ b) [] p q = ground arith
text_lt_trans (x ∷ a) (y ∷ b) (z ∷ c) p q = ground (arith, text_lt_trans a b c)

pub text_lt_irrefl : (a : Text) → text_lt a a ≡ false
unfolding text_lt
text_lt_irrefl [] = refl
text_lt_irrefl (x ∷ a) = ground (arith, text_lt_irrefl a)

pub by_path_len_trans :
    (a b c : Text) → by_path_len a b ≡ true → by_path_len b c ≡ true → by_path_len a c ≡ true
unfolding by_path_len
by_path_len_trans a b c p q = ground (arith, text_lt_trans a b c)

pub by_path_len_irrefl : (a : Text) → by_path_len a a ≡ false
unfolding by_path_len
by_path_len_irrefl a = ground (arith, text_lt_irrefl a)

-- Every later name comes before none of the earlier ones.
abbrev pub NoneBefore : Text → List Text → Type 0
NoneBefore x [] = Unit {0}
NoneBefore x (y ∷ ys) = (comes_before y x ≡ false) × NoneBefore x ys

abbrev pub IsSorted : List Text → Type 0
IsSorted [] = Unit {0}
IsSorted (x ∷ xs) = NoneBefore x xs × IsSorted xs

NoneBefore-insert :
    (z x : Text) (ys : List Text)
    → comes_before x z ≡ false
    → NoneBefore z ys
    → NoneBefore z (insert_name x ys)
unfolding insert_name
NoneBefore-insert z x [] p q = (p, tt)
NoneBefore-insert z x (y ∷ ys) p (q, r) = elim (Bool-cases (by_path_len y x)) [
  | inl e ↦ rw e (p, (q, r))
  | inr e ↦ rw e (q, NoneBefore-insert z x ys p r)
]

-- What comes before none after `y` comes before none after what comes before `y`.
NoneBefore-trans :
    (x y : Text) (ys : List Text) → comes_before x y ≡ true → NoneBefore y ys → NoneBefore x ys
NoneBefore-trans x y [] p q = tt
NoneBefore-trans x y (z ∷ ys) p (q, r) =
    (ground (arith, by_path_len_trans y x z), NoneBefore-trans x y ys p r)

insert_name-IsSorted : (x : Text) (ys : List Text) → IsSorted ys → IsSorted (insert_name x ys)
unfolding insert_name
insert_name-IsSorted x [] s = (tt, tt)
insert_name-IsSorted x (y ∷ ys) (p, s) = elim (Bool-cases (by_path_len y x)) [
  | inl e ↦ rw e (
    (ground (arith, by_path_len_trans x y x, by_path_len_irrefl x), NoneBefore-trans x y ys e p),
    (p, s),
  )
  | inr e ↦ rw e (NoneBefore-insert y x ys e p, insert_name-IsSorted x ys s)
]

insert_name-perm : (x : Text) (ys : List Text) → Perm (insert_name x ys) (x ∷ ys)
unfolding insert_name
insert_name-perm x [] = Perm.rfl
insert_name-perm x (y ∷ ys) = elim (Bool-cases (by_path_len y x)) [
  | inl e ↦ rw e Perm.rfl
  | inr e ↦ rw e (Perm.trans (Perm.cons y (insert_name-perm x ys)) (Perm.swap x y ys))
]

sort-IsSorted : (xs : List Text) → IsSorted (sort_templates xs)
unfolding sort_templates
sort-IsSorted [] = tt
sort-IsSorted (x ∷ xs) = insert_name-IsSorted x (sort_templates xs) (sort-IsSorted xs)

sorted_perm : (xs : List Text) → Perm (sort_templates xs) xs
unfolding sort_templates
sorted_perm [] = Perm.rfl
sorted_perm (x ∷ xs) =
    Perm.trans (insert_name-perm x (sort_templates xs)) (Perm.cons x (sorted_perm xs))

-- `y` may stand after `x`: it has fewer slashes, or as many and is not the greater text.
abbrev pub MayFollow : Text → Text → Type 0
MayFollow x y = (slashes y < slashes x) ⊎ ((slashes x ≡ slashes y) × (text_lt x y ≡ false))

abbrev pub AllMayFollow : Text → List Text → Type 0
AllMayFollow x [] = Unit {0}
AllMayFollow x (y ∷ ys) = MayFollow x y × AllMayFollow x ys

-- So does every name after every name before it.
abbrev pub IsDescending : List Text → Type 0
IsDescending [] = Unit {0}
IsDescending (x ∷ xs) = AllMayFollow x xs × IsDescending xs

by_path_len-MayFollow : (x y : Text) → comes_before y x ≡ false → MayFollow x y
unfolding by_path_len
by_path_len-MayFollow x y e = elim (Bool-cases (slashes x == slashes y)) [
  | inl b ↦ inr (ground arith, ground arith)
  | inr b ↦ inl (ground arith)
]

NoneBefore-AllMayFollow : (x : Text) (ys : List Text) → NoneBefore x ys → AllMayFollow x ys
NoneBefore-AllMayFollow x [] n = tt
NoneBefore-AllMayFollow x (y ∷ ys) (e, n) =
    (by_path_len-MayFollow x y e, NoneBefore-AllMayFollow x ys n)

IsSorted-IsDescending : (xs : List Text) → IsSorted xs → IsDescending xs
IsSorted-IsDescending [] s = tt
IsSorted-IsDescending (x ∷ xs) (n, s) = (NoneBefore-AllMayFollow x xs n, IsSorted-IsDescending xs s)

-- The templates are rendered in an order in which every later name has fewer slashes than an earlier
-- one or, with as many, is not the greater text; and the names are those of the map.
pub sort_templates-IsDescending :
    (xs : List Text) → IsDescending (sort_templates xs) × Perm (sort_templates xs) xs
sort_templates-IsDescending xs =
    (IsSorted-IsDescending (sort_templates xs) (sort-IsSorted xs), sorted_perm xs)
