-- ===== src/Origin/Canon.antt =====
-- Helm's packages as the program calls them, and the canonical texts of values, `canon` and `asMap` of
-- tools/helmprov/cmd/helmprov/origin.go. A Go map is the list of its entries.
use cartograph_nvim.Base.{
  ◌≡◌, refl, inl, inr, ◌⊎◌, Text, codes, Bool, List, [], ◌∷◌, ◌++◌, if◌then◌else◌,
}
use cartograph_nvim.Tpl.Host.{set_all}
use cartograph_nvim.Origin.Tables.{Any, null, text, other, table, Table, end, entry, leaves}
use cartograph_nvim.Origin.Layers.{Chart}

-- A value, or the text of an error.
pub data Tried (A : Type 0) : Type 0 where
  got : A → Tried A
  err : Text → Tried A

pub Tried-cases : {A : Type 0} (t : Tried A) → ((a : A) × (t ≡ got a)) ⊎ ((e : Text) × (t ≡ err e))
Tried-cases (got a) = inl (a, refl)
Tried-cases (err e) = inr (e, refl)

-- A boolean, a number with its text by the verb %.17g, or a value of another type.
pub data Scalar : Type 0 where
  boolean : Bool → Scalar
  number : Text → Scalar
  composite : Scalar

pub record Helm (X : Type 0) : Type 0 where
  -- loader.Load, os.ReadFile, loader.LoadValues, strvals.ParseInto on an empty map
  pub load_chart : Text → Tried (Chart X)
  pub read_file : Text → Tried Text
  pub load_values : Text → Tried (Table X)
  pub parse_set : Text → Tried (Table X)
  -- loader.MergeMaps
  pub merge_maps : Table X → Table X → Table X
  -- "Values" of util.ToRenderValuesWithSchemaValidation
  pub render_values : Chart X → Table X → Tried (Any X)
  -- filepath.Join
  pub path_join : List Text → Text
  -- the Go type of a value
  pub scalar : X → Scalar
  -- json.Marshal, and the verb %v
  pub marshal : Any X → Tried Text
  pub print : Any X → Text

module _ {X : Type 0} where
  unfoldable pub as_map : Any X → Table X
  as_map (table m) = m
  as_map null = end
  as_map (text s) = end
  as_map (other x) = end

  module _ (p : Helm X) where
    -- what json.Marshal gives
    unfoldable pub encoded : Any X → Tried Text → Text
    unfolding codes
    encoded v (err e) = codes "other:" ++ p.print v
    encoded v (got b) = codes "json:" ++ b

    unfoldable pub canon_json : Any X → Text
    unfolding encoded
    canon_json v = encoded v (p.marshal v)

    unfoldable pub canon_scalar : X → Scalar → Text
    unfolding codes canon_json
    canon_scalar x (boolean b) = codes "bool:" ++ (if b then codes "true" else codes "false")
    canon_scalar x (number s) = codes "number:" ++ s
    canon_scalar x composite = canon_json (other x)

    unfoldable pub canon : Any X → Text
    unfolding codes canon_json canon_scalar
    canon null = codes "null"
    canon (text s) = codes "str:" ++ s
    canon (other x) = canon_scalar x (p.scalar x)
    canon (table end) = codes "map:{}"
    canon (table (entry k v m)) = canon_json (table (entry k v m))

    unfoldable pub canon_all : List (Text × Any X) → List (Text × Text)
    unfolding canon
    canon_all [] = []
    canon_all ((k, v) ∷ vs) = (k, canon v) ∷ canon_all vs

    -- the canonical leaves by path; a later leaf of a path replaces an earlier one
    unfoldable pub canon_leaves : Table X → List (Text × Text)
    unfolding canon_all leaves set_all
    canon_leaves m = set_all (canon_all (leaves m [])) []
