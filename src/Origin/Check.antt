-- ===== src/Origin/Check.antt =====
-- The self-check of computeOrigins, tools/helmprov/cmd/helmprov/origin.go.
use cartograph_nvim.Base.{
  Text, codes, text_eq, text_eq_sound, text_eq_refl, true, false, ◌≡◌, refl, sym, ◌∙◌, List, [],
  ◌∷◌, none, some, Option-cases, Bool-cases, inl, inr, is_some, arith,
}
use mathlib.Core.Path.{subst}
use cartograph_nvim.Tpl.Host.{set_all, set_key, lookup_key}
use cartograph_nvim.Origin.Tables.{Any, null, text, other, table, Table, end, entry, leaves}
use cartograph_nvim.Origin.Canon.{
  Tried, got, err, Helm, Scalar, boolean, number, composite, canon, encoded, canon_json,
  canon_scalar, canon_all, canon_leaves,
}
use cartograph_nvim.Origin.Compute.{at_path, differing, extra, self_check}

-- No value of the map is the empty text.
abbrev pub AllFull : List (Text × Text) → Type 0
AllFull [] = Unit {0}
AllFull ((k, v) ∷ m) = (text_eq v [] ≡ false) × AllFull m

AllFull-set_key :
    (k v : Text) (m : List (Text × Text))
    → text_eq v [] ≡ false
    → AllFull m
    → AllFull (set_key k v m)
unfolding set_key
AllFull-set_key k v [] f a = (f, tt)
AllFull-set_key k v ((j, u) ∷ m) f (g, a) = elim (Bool-cases (text_eq j k)) [
  | inl b ↦ rw b (f, a)
  | inr b ↦ rw b (g, AllFull-set_key k v m f a)
]

AllFull-set_all : (xs m : List (Text × Text)) → AllFull xs → AllFull m → AllFull (set_all xs m)
unfolding set_all
AllFull-set_all [] m g a = a
AllFull-set_all ((k, v) ∷ xs) m (f, g) a =
    AllFull-set_all xs (set_key k v m) g (AllFull-set_key k v m f a)

module _ {X : Type 0} (p : Helm X) where
  encoded_full : (v : Any X) (t : Tried Text) → text_eq (encoded p v t) [] ≡ false
  unfolding encoded codes text_eq
  encoded_full v (err e) = refl
  encoded_full v (got b) = refl

  canon_json_full : (v : Any X) → text_eq (canon_json p v) [] ≡ false
  unfolding canon_json
  canon_json_full v = encoded_full v (p.marshal v)

  canon_scalar_full : (x : X) (s : Scalar) → text_eq (canon_scalar p x s) [] ≡ false
  unfolding canon_scalar codes text_eq
  canon_scalar_full x (boolean b) = refl
  canon_scalar_full x (number s) = refl
  canon_scalar_full x composite = canon_json_full (other x)

  canon_full : (v : Any X) → text_eq (canon p v) [] ≡ false
  unfolding canon codes text_eq
  canon_full null = refl
  canon_full (text s) = refl
  canon_full (other x) = canon_scalar_full x (p.scalar x)
  canon_full (table end) = refl
  canon_full (table (entry k v m)) = canon_json_full (table (entry k v m))

  AllFull-canon_all : (vs : List (Text × Any X)) → AllFull (canon_all p vs)
  unfolding canon_all
  AllFull-canon_all [] = tt
  AllFull-canon_all ((k, v) ∷ vs) = (canon_full v, AllFull-canon_all vs)

  pub AllFull-canon_leaves : (m : Table X) → AllFull (canon_leaves p m)
  unfolding canon_leaves
  AllFull-canon_leaves m =
      AllFull-set_all (canon_all p (leaves m [])) [] (AllFull-canon_all (leaves m [])) tt

lookup-full :
    (m : List (Text × Text)) (path v : Text)
    → AllFull m
    → lookup_key path m ≡ some v
    → text_eq v [] ≡ false
unfolding lookup_key
lookup-full [] path v a e = ground arith
lookup-full ((k, u) ∷ m) path v (f, a) e = elim (Bool-cases (text_eq k path)) [
  | inl b ↦ ground arith
  | inr b ↦ lookup-full m path v a (ground arith)
]

differing-at_path :
    (values repl : List (Text × Text)) (path v : Text)
    → differing values repl ≡ none
    → lookup_key path values ≡ some v
    → at_path repl path ≡ v
unfolding differing lookup_key
differing-at_path [] repl path v c e = ground arith
differing-at_path ((k, u) ∷ values) repl path v c e =
    elim (Bool-cases (text_eq (at_path repl k) u)) [
      | inr d ↦ ground arith
      | inl d ↦ elim (Bool-cases (text_eq k path)) [
        | inl b ↦
            let same : u ≡ v = ground arith in
            subst (λ x. at_path repl x ≡ v) (text_eq_sound k path b)
              (text_eq_sound (at_path repl k) u d ∙ same)
        | inr b ↦ differing-at_path values repl path v (ground arith) (ground arith)
      ]
    ]

extra-lookup :
    (repl values : List (Text × Text)) (path v : Text)
    → extra repl values ≡ none
    → lookup_key path repl ≡ some v
    → is_some (lookup_key path values) ≡ true
unfolding extra lookup_key
extra-lookup [] values path v c e = ground arith
extra-lookup ((k, u) ∷ repl) values path v c e = elim (Bool-cases (is_some (lookup_key k values))) [
  | inr d ↦ ground arith
  | inl d ↦ elim (Bool-cases (text_eq k path)) [
    | inl b ↦ subst (λ x. is_some (lookup_key x values) ≡ true) (text_eq_sound k path b) d
    | inr b ↦ extra-lookup repl values path v (ground arith) (ground arith)
  ]
]

pub self_check-lookup :
    (values repl : List (Text × Text)) (path : Text)
    → AllFull values
    → self_check values repl ≡ none
    → lookup_key path values ≡ lookup_key path repl
unfolding self_check at_path
self_check-lookup values repl path full c = elim (Option-cases (differing values repl)) [
  | inr (why, d) ↦ ground arith
  | inl d ↦
      let x : extra repl values ≡ none = ground arith in
      elim (Option-cases (lookup_key path values)) [
        | inr (v, e) ↦
            let at = differing-at_path values repl path v d e in
            let f = lookup-full values path v full e in
            elim (Option-cases (lookup_key path repl)) [
              | inl n ↦
                  let empty : [] ≡ v = ground arith in
                  let g : text_eq [] [] ≡ false = subst (λ x. text_eq x [] ≡ false) (sym empty) f in
                  cc (g, text_eq_refl [])
              | inr (u, k) ↦ ground arith
            ]
        | inl e ↦ elim (Option-cases (lookup_key path repl)) [
          | inl n ↦ e ∙ sym n
          | inr (u, k) ↦ let s = extra-lookup repl values path u x k in ground arith
        ]
      ]
]
