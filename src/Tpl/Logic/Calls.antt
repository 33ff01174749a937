-- ===== src/Tpl/Logic/Calls.antt =====
-- Type checks and literals keep the logic.
use cartograph_nvim.Base.{ℕ, none, some, Option}
use cartograph_nvim.Tpl.Syntax.{Number, Node, bool_node, number_node, string_node}
use cartograph_nvim.Tpl.Value.{Typ, Value, interface, pointer, nil_pointer}
use cartograph_nvim.Tpl.Host.{Host}
use cartograph_nvim.Tpl.Calls.{
  indirect_once, convert, check_type, validate_type, ideal_constant, not_a_function, eval_bool,
  eval_string, eval_integer, eval_unsigned_integer, eval_float, eval_complex,
}
use cartograph_nvim.Tpl.Logic.Defs.{Logic}
use cartograph_nvim.Tpl.Logic.Rules.{evals_pure, evals_errorf, eval_rules}

module _ (h : Host) (l : Logic h) where
  open l use {Evals}

  evals_indirect_once :
      (v : Value) (t : Typ) → Evals Value (indirect_once h v t) (indirect_once h v t)
  unfolding indirect_once
  evals_indirect_once (pointer v) t = search eval_rules
  evals_indirect_once (nil_pointer u) t = search eval_rules
  evals_indirect_once _ t = evals_errorf h l _ _

  evals_convert : (v : Value) (t : Typ) → Evals Value (convert h v t) (convert h v t)
  unfolding convert
  evals_convert (interface v) t = search (eval_rules, evals_indirect_once)
  evals_convert v t = evals_indirect_once v t

  evals_check_type :
      (v : Value) (t : Option Typ) → Evals Value (check_type h v t) (check_type h v t)
  unfolding check_type
  evals_check_type v none = evals_pure h l _ _
  evals_check_type v (some t) = search (eval_rules, evals_convert)

  pub evals_validate :
      (v : Value) (t : Option Typ) → Evals Value (validate_type h v t) (validate_type h v t)
  unfolding validate_type
  evals_validate v t = search (eval_rules, evals_check_type) depth 7

  pub evals_constant :
      (n : Node) (x : Number) → Evals Value (ideal_constant h n x) (ideal_constant h n x)
  unfolding ideal_constant
  evals_constant n x = search eval_rules depth 9

  pub evals_not_a_function :
      (n : Node) (k : ℕ) (v : Value)
      → Evals (Unit {0}) (not_a_function h n k v) (not_a_function h n k v)
  unfolding not_a_function
  evals_not_a_function n k v = search eval_rules

  pub evals_bool : (n : Node) → Evals Value (eval_bool h n) (eval_bool h n)
  unfolding eval_bool
  evals_bool (bool_node p b) = search eval_rules
  evals_bool _ = search eval_rules

  pub evals_string : (n : Node) → Evals Value (eval_string h n) (eval_string h n)
  unfolding eval_string
  evals_string (string_node p b) = search eval_rules
  evals_string _ = search eval_rules

  pub evals_integer : (n : Node) → Evals Value (eval_integer h n) (eval_integer h n)
  unfolding eval_integer
  evals_integer (number_node p b) = search eval_rules
  evals_integer _ = search eval_rules

  pub evals_unsigned :
      (n : Node) → Evals Value (eval_unsigned_integer h n) (eval_unsigned_integer h n)
  unfolding eval_unsigned_integer
  evals_unsigned (number_node p b) = search eval_rules
  evals_unsigned _ = search eval_rules

  pub evals_float : (n : Node) → Evals Value (eval_float h n) (eval_float h n)
  unfolding eval_float
  evals_float (number_node p b) = search eval_rules
  evals_float _ = search eval_rules

  pub evals_complex : (n : Node) → Evals Value (eval_complex h n) (eval_complex h n)
  unfolding eval_complex
  evals_complex (number_node p b) = search eval_rules
  evals_complex _ = search eval_rules
