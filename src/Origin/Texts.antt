-- ===== src/Origin/Texts.antt =====
-- The texts that the origins of an answer are read from, computeOrigins of
-- tools/helmprov/cmd/helmprov/origin.go.
use cartograph_nvim.Base.{
  Text, text_eq, ◌≡◌, refl, List, [], ◌∷◌, ◌++◌, some, Option-cases, Bool-cases, inl, inr, arith,
}
use cartograph_nvim.Tpl.Host.{set_all, set_key, lookup_key}
use cartograph_nvim.Origin.Tables.{
  Any, null, text, other, table, Table, end, entry, below, leaves, leaves_value, origin, origins,
  origin_text,
}
use cartograph_nvim.Origin.Canon.{Helm, as_map}
use cartograph_nvim.Origin.Compute.{origins_of}
use cartograph_nvim.Origin.Named.{Holds, IsLeaf}

module _ {X : Type 0} where
  -- The value of each entry is what a mark among the leaves names.
  abbrev AllFrom : Table X → List (Text × Text) → Type 0
  AllFrom m [] = Unit {0}
  AllFrom m ((k, o) ∷ os) = ((s : Text) × Holds s m × (origin_text s ≡ some o)) × AllFrom m os

  AllFrom-set_key :
      (m : Table X) (k o : Text) (os : List (Text × Text))
      → (s : Text) × Holds s m × (origin_text s ≡ some o)
      → AllFrom m os
      → AllFrom m (set_key k o os)
  unfolding set_key
  AllFrom-set_key m k o [] f a = (f, tt)
  AllFrom-set_key m k o ((j, u) ∷ os) f (g, a) = elim (Bool-cases (text_eq j k)) [
    | inl b ↦ rw b (f, a)
    | inr b ↦ rw b (g, AllFrom-set_key m k o os f a)
  ]

  AllFrom-set_all :
      (m : Table X) (xs os : List (Text × Text))
      → AllFrom m xs
      → AllFrom m os
      → AllFrom m (set_all xs os)
  unfolding set_all
  AllFrom-set_all m [] os g a = a
  AllFrom-set_all m ((k, v) ∷ xs) os (f, g) a =
      AllFrom-set_all m xs (set_key k v os) g (AllFrom-set_key m k v os f a)

  -- The text leaves of a list of leaves are the table's.
  abbrev Within : Table X → List (Text × Any X) → Type 0
  Within m [] = Unit {0}
  Within m ((k, v) ∷ vs) = ((s : Text) → v ≡ text s → Holds s m) × Within m vs

  Within-append :
      (m : Table X) (xs ys : List (Text × Any X)) → Within m xs → Within m ys → Within m (xs ++ ys)
  Within-append m [] ys a b = b
  Within-append m (x ∷ xs) ys (f, a) b = (f, Within-append m xs ys a b)

  mutual
    unfolding leaves Holds

    leaves-Within :
        (m n : Table X) (prefix : Text)
        → ((s : Text) → Holds s n → Holds s m)
        → Within m (leaves n prefix)
    leaves-Within m end prefix f = tt
    leaves-Within m (entry k v n) prefix f =
        Within-append m (leaves_value v (below prefix k)) (leaves n prefix)
          (value-Within m v (below prefix k) λ s h. f s (inl h))
          (leaves-Within m n prefix λ s h. f s (inr h))

    value-Within :
        (m : Table X) (v : Any X) (path : Text)
        → ((s : Text) → IsLeaf s v → Holds s m)
        → Within m (leaves_value v path)
    value-Within m null path f = (λ s e. ground arith, tt)
    value-Within m (text t) path f = (λ s e. f s ground arith, tt)
    value-Within m (other x) path f = (λ s e. ground arith, tt)
    value-Within m (table end) path f = (λ s e. ground arith, tt)
    value-Within m (table (entry k v n)) path f = leaves-Within m (entry k v n) path f

  origins-AllFrom : (m : Table X) (vs : List (Text × Any X)) → Within m vs → AllFrom m (origins vs)
  unfolding origins origin
  origins-AllFrom m [] w = tt
  origins-AllFrom m ((k, null) ∷ vs) (f, w) = origins-AllFrom m vs w
  origins-AllFrom m ((k, other x) ∷ vs) (f, w) = origins-AllFrom m vs w
  origins-AllFrom m ((k, table t) ∷ vs) (f, w) = origins-AllFrom m vs w
  origins-AllFrom m ((k, text s) ∷ vs) (f, w) = elim (Option-cases (origin_text s)) [
    | inl n ↦ rw (origins, n) (origins-AllFrom m vs w)
    | inr (o, e) ↦ rw (origins, e) ((s, f s refl, e), origins-AllFrom m vs w)
  ]

  lookup-AllFrom :
      (m : Table X) (os : List (Text × Text)) (path o : Text)
      → AllFrom m os
      → lookup_key path os ≡ some o
      → (s : Text) × Holds s m × (origin_text s ≡ some o)
  unfolding lookup_key
  lookup-AllFrom m [] path o a e = ground arith
  lookup-AllFrom m ((k, u) ∷ os) path o ((s, h, k'), a) e = elim (Bool-cases (text_eq k path)) [
    | inl b ↦ (s, h, ground arith)
    | inr b ↦ lookup-AllFrom m os path o a ground arith
  ]

  pub origins_of-Holds :
      (p : Helm X) (v : Any X) (path o : Text)
      → lookup_key path (origins_of p v) ≡ some o
      → (s : Text) × Holds s (as_map v) × (origin_text s ≡ some o)
  unfolding origins_of
  origins_of-Holds p v path o e =
      let m = as_map v in
      let own = origins-AllFrom m (leaves m []) (leaves-Within m m [] λ s h. h) in
      lookup-AllFrom m (set_all (origins (leaves m [])) []) path o
        (AllFrom-set_all m (origins (leaves m [])) [] own tt) e
