-- ===== src/Tpl/Host.antt =====
-- What the executor calls and does not implement: Go's formatting and reflection, the parser's
-- positions, and the functions that templates may call.
use cartograph_nvim.Base.{ℕ, Text, Bool, Option, List, text_eq, if◌then◌else◌, [], ◌∷◌, none, some}
use cartograph_nvim.Tpl.Syntax.{Node}
use cartograph_nvim.Tpl.Value.{Typ, Value}

-- A function answers with a value or an error.
pub data Answer : Type 0 where
  value : Value → Answer
  error : Text → Answer

-- `include` runs the executor again, and so does `tpl`, which the host answers; every other function
-- is a function of its arguments.
pub data Body : Type 0 where
  include : Body
  tpl : Body
  native : (List Value → Answer) → Body

-- The parameters; for a variadic function, the fixed ones and the element type of the last. `fault`
-- is the complaint of `goodFunc`.
pub record Function : Type 0 where
  pub params : List Typ
  pub variadic : Option Typ
  pub fault : Option Text
  pub body : Body

-- A template and its body, which is absent before it is parsed.
pub record Template : Type 0 where
  pub name : Text
  pub root : Option Node

-- Tree.ErrorContext, Node.String, %q, %v of a value, reflect's type names and its assignability,
-- the methods and the exported fields of a value, and the builtins of the executor. `misread` is what
-- fmt.Errorf makes of an error's text whose location has a `%`, by the location, the quoted name, the
-- node's text and the message. `tpl` is the answer of a call of tpl, given the templates; none where
-- the call does not return, since its recursion has no bound.
pub record Host : Type 0 where
  pub error_context : Text → Node → Text × Text
  pub misread : Text → Text → Text → Text → Text
  pub tpl : List Template → List Value → Option Answer
  pub node_string : Node → Text
  pub quote : Text → Text
  pub show_value : Value → Text
  pub show_type : Typ → Text
  pub assignable : Typ → Typ → Bool
  pub method : Value → Text → Option Function
  pub struct_field : ℕ → Text → Option Value
  pub printable : Value → Bool
  pub builtin : Text → Option Function

pub data MissingKey : Type 0 where
  map_invalid map_zero_value map_error : MissingKey

-- The associated templates share their names, their functions and their option (template.go).
pub record Group : Type 0 where
  pub templates : List Template
  pub funcs : List (Text × Function)
  pub missing_key : MissingKey

-- Lookup
unfoldable pub lookup_template : List Template → Text → Option Template
unfolding text_eq
lookup_template [] name = none
lookup_template (t ∷ ts) name = if text_eq t.name name then some t else lookup_template ts name

-- A map from texts: the first entry of a key counts.
module _ {ℓ} {A : Type ℓ} where
  unfoldable pub lookup_key : Text → List (Text × A) → Option A
  unfolding text_eq
  lookup_key k [] = none
  lookup_key k ((j, a) ∷ m) = if text_eq j k then some a else lookup_key k m

  unfoldable pub set_key : Text → A → List (Text × A) → List (Text × A)
  unfolding text_eq
  set_key k a [] = (k, a) ∷ []
  set_key k a ((j, b) ∷ m) = if text_eq j k then (k, a) ∷ m else (j, b) ∷ set_key k a m

  -- The map with the entries of a list set in order.
  unfoldable pub set_all : List (Text × A) → List (Text × A) → List (Text × A)
  unfolding set_key
  set_all [] m = m
  set_all ((k, a) ∷ xs) m = set_all xs (set_key k a m)
