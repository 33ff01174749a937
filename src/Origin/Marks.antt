-- ===== src/Origin/Marks.antt =====
-- The leaves of a marked copy, and the sources that its marks name, for
-- tools/helmprov/cmd/helmprov/origin.go.
use cartograph_nvim.Base.{
  Text, ◌≡◌, refl, sym, ap, ◌∙◌, some, List, [], ◌∷◌, ◌++◌, Option-cases, inl, inr,
}
use mathlib.Core.Path.{ap₂}
use cartograph_nvim.Base.TextLaws.{has_prefix-append, trim_prefix-append}
use cartograph_nvim.Origin.Tables.{
  Any, null, text, other, table, Table, end, entry, marker, unit_separator, below, mark, taint,
  taint_value, leaves, leaves_value, origin, origins, origin_text,
}

-- The sources of the leaves of a table of the source `id`: every leaf that is neither nil nor an empty
-- table comes from its own path.
unfoldable pub sources : {X : Type 0} → Text → List (Text × Any X) → List (Text × Text)
sources id [] = []
sources id ((p, null) ∷ vs) = sources id vs
sources id ((p, table m) ∷ vs) = sources id vs
sources id ((p, text s) ∷ vs) = (p, id ++ (unit_separator ++ p)) ∷ sources id vs
sources id ((p, other x) ∷ vs) = (p, id ++ (unit_separator ++ p)) ∷ sources id vs

pub origin-mark : (id p : Text) → origin_text (mark id p) ≡ some (id ++ (unit_separator ++ p))
unfolding origin_text mark
origin-mark id p =
    let s = id ++ (unit_separator ++ p) in
    rw (has_prefix-append marker s, trim_prefix-append marker s) refl

module _ {X : Type 0} where
  origins-append : (xs ys : List (Text × Any X)) → origins (xs ++ ys) ≡ origins xs ++ origins ys
  unfolding origins
  origins-append [] ys = refl
  origins-append ((p, v) ∷ xs) ys = elim (Option-cases (origin v)) [
    | inl e ↦ rw (origins, e) (origins-append xs ys)
    | inr (o, e) ↦ rw (origins, e) (ap (λ r. (p, o) ∷ r) (origins-append xs ys))
  ]

  sources-append :
      (id : Text) (xs ys : List (Text × Any X))
      → sources id (xs ++ ys) ≡ sources id xs ++ sources id ys
  unfolding sources
  sources-append id [] ys = refl
  sources-append id ((p, null) ∷ xs) ys = sources-append id xs ys
  sources-append id ((p, table m) ∷ xs) ys = sources-append id xs ys
  sources-append id ((p, text s) ∷ xs) ys =
      ap (λ r. (p, id ++ (unit_separator ++ p)) ∷ r) (sources-append id xs ys)
  sources-append id ((p, other x) ∷ xs) ys =
      ap (λ r. (p, id ++ (unit_separator ++ p)) ∷ r) (sources-append id xs ys)

  mutual
    unfolding leaves taint origins origin sources

    marked_table :
        (m : Table X) (id prefix : Text)
        → origins (leaves (taint m id prefix) prefix) ≡ sources id (leaves m prefix)
    marked_table end id prefix = refl
    marked_table (entry k v m) id prefix =
        origins-append (leaves_value (taint_value v id (below prefix k)) (below prefix k))
          (leaves (taint m id prefix) prefix)
        ∙ (ap₂ (λ a b. a ++ b) (marked_value v id (below prefix k)) (marked_table m id prefix)
            ∙ sym (sources-append id (leaves_value v (below prefix k)) (leaves m prefix)))

    marked_value :
        (v : Any X) (id p : Text)
        → origins (leaves_value (taint_value v id p) p) ≡ sources id (leaves_value v p)
    marked_value null id p = refl
    marked_value (text s) id p = rw (origins, origin, origin-mark id p) refl
    marked_value (other x) id p = rw (origins, origin, origin-mark id p) refl
    marked_value (table end) id p = refl
    marked_value (table (entry k v m)) id p = marked_table (entry k v m) id p

-- The leaves of the marked copy of a source, nested tables and prefixes included, name as their
-- sources exactly the leaves of that source that are neither nil nor an empty table, in order, each by
-- the source's id and by its own path.
pub origins-taint :
    {X : Type 0} (m : Table X) (id prefix : Text)
    → origins (leaves (taint m id prefix) prefix) ≡ sources id (leaves m prefix)
origins-taint m id prefix = marked_table m id prefix
