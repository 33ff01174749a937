-- ===== src/Origin/Tables.antt =====
-- Tables of values, their leaves and their marked copies, tools/helmprov/cmd/helmprov/origin.go. A Go
-- map is a list of its entries, in the order in which a run iterates it; `X` is the values that are
-- neither a table, a text nor nil.
use cartograph_nvim.Base.{
  Text, codes, text_eq, has_prefix, trim_prefix, List, [], ◌∷◌, ◌++◌, Option, none, some,
  if◌then◌else◌,
}

mutual
  pub data Any (X : Type 0) : Type 0 where
    null : Any X
    text : Text → Any X
    other : X → Any X
    table : Table X → Any X

  pub data Table (X : Type 0) : Type 0 where
    end : Table X
    entry : Text → Any X → Table X → Table X

abbrev pub unit_separator : Text
unit_separator = 0x1F ∷ []

unfoldable pub marker : Text
marker = 0 ∷ (codes "cartograph-origin" ++ unit_separator)

-- the path of a key below a prefix
unfoldable pub below : Text → Text → Text
below prefix k = if text_eq prefix [] then k else prefix ++ (codes "." ++ k)

unfoldable pub mark : Text → Text → Text
mark id p = marker ++ (id ++ (unit_separator ++ p))

-- what the last step of computeOrigins reads from an effective leaf that is a text
unfoldable pub origin_text : Text → Option Text
origin_text s = if has_prefix s marker then some (trim_prefix s marker) else none

module _ {X : Type 0} where
  unfoldable mutual
    pub taint : Table X → Text → Text → Table X
    taint end id prefix = end
    taint (entry k v m) id prefix = entry k (taint_value v id (below prefix k)) (taint m id prefix)

    pub taint_value : Any X → Text → Text → Any X
    taint_value (table x) id p = table (taint x id p)
    taint_value null id p = null
    taint_value (text s) id p = text (mark id p)
    taint_value (other x) id p = text (mark id p)

  unfoldable mutual
    -- The calls of the function that `leaves` is given: a table with entries is entered, an empty one
    -- is a leaf.
    pub leaves : Table X → Text → List (Text × Any X)
    leaves end prefix = []
    leaves (entry k v m) prefix = leaves_value v (below prefix k) ++ leaves m prefix

    pub leaves_value : Any X → Text → List (Text × Any X)
    leaves_value (table (entry k v m)) p = leaves (entry k v m) p
    leaves_value v p = (p, v) ∷ []

  unfoldable pub origin : Any X → Option Text
  origin (text s) = origin_text s
  origin v = none

  unfoldable pub origins : List (Text × Any X) → List (Text × Text)
  origins [] = []
  origins ((p, v) ∷ vs) = elim (origin v) [ none ↦ origins vs | some o ↦ (p, o) ∷ origins vs ]
