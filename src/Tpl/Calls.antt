-- ===== src/Tpl/Calls.antt =====
-- The calls by which evaluation and walking run one another, and the evaluation of what makes none:
-- type checks and literals. tools/helmprov/tpl/exec.go.
use cartograph_nvim.Base.{
  ℕ, suc, Text, codes, length, has_prefix, Bool, true, false, not, ◌&&◌, ◌||◌, Option, none, some,
  [], ◌∷◌, ◌++◌, if◌then◌else◌, ltb, is_some,
}
use cartograph_nvim.Tpl.Syntax.{
  Number, Node, bool_node, number_node, string_node, Nodes, nil, cons, OptPipe,
}
use cartograph_nvim.Tpl.Value.{
  Typ, t_any, t_value, t_pointer, Value, invalid, interface, nil_pointer, pointer, bool, int, uint,
  float, complex, str, boxed, is_valid, is_missing, type_of, can_be_nil, zero_of, sym_of,
}
use cartograph_nvim.Tpl.Host.{Host}
use cartograph_nvim.Tpl.World.{M, on_option, pure, ◌>>=◌, ◌>>◌, update}
use cartograph_nvim.Tpl.State.{errorf, at, has_byte}
use cartograph_nvim.Tpl.Prov.{symbolic}

-- One level of fuel further down.
pub record Calls : Type 0 where
  pub walk : Value → Node → M (Unit {0})
  pub eval_pipeline : Value → OptPipe → M Value
  -- no type: that of a parenthesised receiver
  pub eval_arg : Value → Option Typ → Node → M Value

abbrev pub tail : Nodes → Nodes
tail nil = nil
tail (cons n ns) = ns

unfoldable pub count_nodes : Nodes → ℕ
count_nodes nil = 0
count_nodes (cons n ns) = suc (count_nodes ns)

-- A type whose slots take a placeholder as it is.
unfoldable pub takes_sym : Typ → Bool
takes_sym t_any = true
takes_sym t_value = true
takes_sym _ = false

unfoldable pub is_value_type : Typ → Bool
is_value_type t_value = true
is_value_type _ = false

unfoldable pub is_rune_int : Text → Bool
unfolding has_prefix codes
is_rune_int s = has_prefix s (codes "'")

unfoldable pub contains_any : Text → Text → Bool
unfolding has_byte
contains_any [] chars = false
contains_any (x ∷ s) chars = has_byte x chars || contains_any s chars

unfoldable pub is_hex_int : Text → Bool
unfolding has_prefix codes contains_any
is_hex_int s =
    ltb 2 (length s)
    && ((has_prefix s (codes "0x") || has_prefix s (codes "0X"))
        && not (contains_any s (codes "pP")))

module _ (h : Host) where
  -- validateType, for a value that is not assignable: one indirection is tried. No value here is
  -- addressable.
  unfoldable pub indirect_once : Value → Typ → M Value
  unfolding codes is_valid zero_of type_of
  indirect_once (pointer v) t =
      if h.assignable (type_of v) t
      then pure v
      else errorf h (
          codes "wrong type for value; expected "
          ++ (h.show_type t ++ (codes "; got " ++ h.show_type (t_pointer (type_of v)))))
  indirect_once (nil_pointer u) t =
      if h.assignable u t
      then errorf h (codes "dereference of nil pointer of type " ++ h.show_type t)
      else errorf h (
          codes "wrong type for value; expected "
          ++ (h.show_type t ++ (codes "; got " ++ h.show_type (t_pointer u))))
  indirect_once v t = errorf h (
      codes "wrong type for value; expected "
      ++ (h.show_type t ++ (codes "; got " ++ h.show_type (type_of v))))

  unfoldable pub convert : Value → Typ → M Value
  unfolding indirect_once type_of
  convert (interface v) t = if h.assignable (type_of v) t then pure v else indirect_once v t
  convert v t = indirect_once v t

  unfoldable pub check_type : Value → Option Typ → M Value
  unfolding is_valid zero_of can_be_nil codes type_of is_value_type convert
  check_type v none = pure v
  check_type v (some t) =
      if not (is_valid v)
      then (if can_be_nil t
          then pure (zero_of t)
          else errorf h (codes "invalid value; expected " ++ h.show_type t))
      else if is_value_type t && not (is_value_type (type_of v))
      then pure (boxed v)
      else if h.assignable (type_of v) t
      then pure v
      else convert v t

  abbrev pub hit : Value → Option Typ → Option Typ
  hit v none = none
  hit v (some t) = if is_some (sym_of v) && not (takes_sym t) then some t else none

  -- validateType: a placeholder in a typed slot is a hit
  unfoldable pub validate_type : Value → Option Typ → M Value
  unfolding takes_sym zero_of
  validate_type v t = do
    b ← symbolic
    let found : Option Typ = if b then hit v t else none
    on_option found (check_type v t)
        λ u. update (λ s. record s { sym_hit = true }) >>= λ _. pure (zero_of u)

  unfoldable pub constant : Number → M Value
  unfolding is_rune_int is_hex_int contains_any codes
  constant x =
      if x.is_complex
      then pure (complex x.complex128)
      else if x.is_float
          && (not (is_hex_int x.text)
              && (not (is_rune_int x.text) && contains_any x.text (codes ".eEpP")))
      then pure (float x.float64)
      else if x.is_int
      then pure (int x.int64)
      else if x.is_uint
      then errorf h (x.text ++ codes " overflows int")
      else pure invalid

  -- idealConstant; `int` has 64 bits
  unfoldable pub ideal_constant : Node → Number → M Value
  unfolding constant
  ideal_constant n x = do at n; constant x

  -- notAFunction
  unfoldable pub not_a_function : Node → ℕ → Value → M (Unit {0})
  unfolding codes is_missing
  not_a_function word count final =
      if ltb 1 count || not (is_missing final)
      then errorf h (codes "can't give argument to non-function " ++ h.node_string word)
      else pure tt

  abbrev pub expected : {A : Type 0} → Text → Node → M A
  expected what n = errorf h (codes "expected " ++ (what ++ (codes "; found " ++ h.node_string n)))

  unfoldable pub eval_bool : Node → M Value
  unfolding codes
  eval_bool (bool_node p b) = do at (bool_node p b); pure (bool b)
  eval_bool n = do at n; expected (codes "bool") n

  unfoldable pub eval_string : Node → M Value
  unfolding codes
  eval_string (string_node p s) = do at (string_node p s); pure (str s)
  eval_string n = do at n; expected (codes "string") n

  unfoldable pub eval_integer : Node → M Value
  unfolding codes
  eval_integer (number_node p x) = do
    at (number_node p x)
    if x.is_int then pure (int x.int64) else expected (codes "integer") (number_node p x)
  eval_integer n = do at n; expected (codes "integer") n

  unfoldable pub eval_unsigned_integer : Node → M Value
  unfolding codes
  eval_unsigned_integer (number_node p x) = do
    at (number_node p x)
    if x.is_uint
        then pure (uint x.uint64)
        else expected (codes "unsigned integer") (number_node p x)
  eval_unsigned_integer n = do at n; expected (codes "unsigned integer") n

  unfoldable pub eval_float : Node → M Value
  unfolding codes
  eval_float (number_node p x) = do
    at (number_node p x)
    if x.is_float then pure (float x.float64) else expected (codes "float") (number_node p x)
  eval_float n = do at n; expected (codes "float") n

  -- this one does not mark the node
  unfoldable pub eval_complex : Node → M Value
  unfolding codes
  eval_complex (number_node p x) =
      if x.is_complex
      then pure (complex x.complex128)
      else expected (codes "complex") (number_node p x)
  eval_complex n = expected (codes "complex") n
