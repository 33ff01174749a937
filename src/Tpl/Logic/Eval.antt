-- ===== src/Tpl/Logic/Eval.antt =====
-- The evaluation of pipelines, commands and arguments keeps the logic, if the calls below it do.
use cartograph_nvim.Base.{suc, ◌≤◌, arith, ℕ, Text, Bool, none, some, Option, List, [], ◌∷◌}
use cartograph_nvim.Tpl.Syntax.{
  Node, dot_node, nil_node, field_node, chain_node, identifier_node, variable_node, bool_node,
  number_node, string_node, pipe_node, Nodes, nil, Pipe, pipeline, OptPipe, no_pipe, some_pipe,
  Commands, end, command,
}
use cartograph_nvim.Tpl.Value.{
  Typ, t_bool, t_int, t_uint, t_float, t_complex, t_string, t_any, t_value, t_struct, Value,
  missing, nil_pointer, object, map_of,
}
use cartograph_nvim.Tpl.Host.{Host, MissingKey, map_invalid, map_zero_value, map_error}
use cartograph_nvim.Tpl.Calls.{Calls, tail}
use cartograph_nvim.Tpl.Eval.{
  field_error, nil_error, missing_key, member, concrete_field, eval_field, eval_chain,
  eval_field_chain, record_values, eval_field_node, eval_chain_node, after_variable,
  eval_variable_node, eval_function, eval_word, simple_command, eval_command, eval_commands,
  declare, eval_pipeline, eval_empty_interface, eval_literal, eval_nil, eval_typed, eval_arg,
}
use cartograph_nvim.Tpl.Logic.Defs.{Logic, CallsRelated, JumpsRelated}
use cartograph_nvim.Tpl.Logic.Size.{node_size, nodes_size, commands_size, opt_pipe_size}
use cartograph_nvim.Tpl.Logic.Rules.{
  evals_pure, evals_runtime_error, evals_errorf, evals_bind, eval_rules,
}
use cartograph_nvim.Tpl.Logic.Calls.{
  evals_validate, evals_constant, evals_not_a_function, evals_bool, evals_string, evals_integer,
  evals_unsigned, evals_float, evals_complex,
}
use cartograph_nvim.Tpl.Logic.Call.{evals_record_sym, evals_call}

nil_fits : (d : ℕ) → nodes_size nil ≤ d
unfolding nodes_size
nil_fits d = omega arith

chain_fits :
    (q d : ℕ) (n : Node) (x : List Text) → node_size (chain_node q n x) ≤ suc d → node_size n ≤ d
unfolding node_size
chain_fits q d n x s = omega arith

pipe_fits : (d : ℕ) (q : Pipe) → node_size (pipe_node q) ≤ suc d → opt_pipe_size (some_pipe q) ≤ d
unfolding node_size
pipe_fits d q s = omega arith

command_fits :
    (p d : ℕ) (n : Node) (ns : Nodes) (rest : Commands)
    → commands_size (command p n ns rest) ≤ d
    → (node_size n ≤ d) × (nodes_size ns ≤ d) × (commands_size rest ≤ d)
unfolding commands_size
command_fits p d n ns rest s = (omega arith, omega arith, omega arith)

pipeline_fits :
    (p d : ℕ) (a : Bool) (decl : List Text) (cmds : Commands)
    → opt_pipe_size (some_pipe (pipeline p a decl cmds)) ≤ suc d
    → commands_size cmds ≤ d
unfolding opt_pipe_size
pipeline_fits p d a decl cmds s = omega arith

module _ (h : Host) (l : Logic h) (d : ℕ) (c c' : Calls) (rel : CallsRelated h l d c c')
    (jump : JumpsRelated h l d c c') where
  open l use {Evals}

  evals_missing_key :
      (k : MissingKey) (name : Text)
      → Evals Value (missing_key h c k name) (missing_key h c' k name)
  unfolding missing_key
  evals_missing_key map_invalid name = search eval_rules
  evals_missing_key map_zero_value name = search eval_rules
  evals_missing_key map_error name = search eval_rules

  evals_field_error :
      (name : Text) (t : Typ) → Evals Value (field_error h c name t) (field_error h c' name t)
  unfolding field_error
  evals_field_error name t = search eval_rules

  evals_nil_error :
      (name : Text) (t : Typ) → Evals Value (nil_error h c name t) (nil_error h c' name t)
  unfolding nil_error
  evals_nil_error name t = search eval_rules

  evals_member :
      (t : Typ) (name : Text) (b : Bool) (k : MissingKey) (v : Value)
      → Evals Value (member h c t name b k v) (member h c' t name b k v)
  unfolding member
  evals_member t name b k (object n) = search (eval_rules, evals_field_error)
  evals_member t name b k (map_of es) = search (eval_rules, evals_missing_key)
  evals_member t name b k (nil_pointer (t_struct n)) =
      search (eval_rules, evals_field_error, evals_nil_error)
  evals_member t name b k (nil_pointer u) = search evals_nil_error
  evals_member t name b k v = search evals_field_error

  evals_concrete :
      (dot : Value) (name : Text) (n : Node) (args : Nodes) (final receiver : Value)
      → nodes_size (tail args) ≤ d
      → Evals Value
          (concrete_field h c dot name n args final receiver)
          (concrete_field h c' dot name n args final receiver)
  unfolding concrete_field
  evals_concrete dot name n args final receiver s =
      search (eval_rules, evals_member, evals_nil_error, evals_call h l d c c' rel jump) depth 8

  evals_field :
      (dot : Value) (name : Text) (n : Node) (args : Nodes) (final receiver : Value)
      → nodes_size (tail args) ≤ d
      → Evals Value
          (eval_field h c dot name n args final receiver)
          (eval_field h c' dot name n args final receiver)
  unfolding eval_field
  evals_field dot name n args final receiver s = search (eval_rules, evals_concrete)

  evals_chain :
      (dot receiver : Value) (n : Node) (ident : List Text) (args : Nodes) (final : Value)
      → nodes_size (tail args) ≤ d
      → Evals Value
          (eval_chain h c dot receiver n ident args final)
          (eval_chain h c' dot receiver n ident args final)
  unfolding eval_chain
  evals_chain dot receiver n [] args final s = evals_runtime_error h l _ _
  evals_chain dot receiver n (x ∷ []) args final s = evals_field dot x n args final receiver s
  evals_chain dot receiver n (x ∷ y ∷ r) args final s =
      evals_bind h l _ _ _ _ _ _ (evals_field dot x n nil missing receiver (nil_fits d))
        λ v. evals_chain dot v n (y ∷ r) args final s

  evals_field_chain :
      (dot receiver : Value) (n : Node) (ident : List Text) (args : Nodes) (final : Value)
      → nodes_size (tail args) ≤ d
      → Evals Value
          (eval_field_chain h c dot receiver n ident args final)
          (eval_field_chain h c' dot receiver n ident args final)
  unfolding eval_field_chain
  evals_field_chain dot receiver n ident args final s =
      search (eval_rules, evals_chain, evals_record_sym) depth 7

  evals_record :
      (n : Node) (path : List Text)
      → Evals (Unit {0}) (record_values h c n path) (record_values h c' n path)
  unfolding record_values
  evals_record n path = search eval_rules

  evals_field_node :
      (dot : Value) (n : Node) (ident : List Text) (args : Nodes) (final : Value)
      → nodes_size (tail args) ≤ d
      → Evals Value
          (eval_field_node h c dot n ident args final)
          (eval_field_node h c' dot n ident args final)
  unfolding eval_field_node
  evals_field_node dot n ident args final s = search (eval_rules, evals_record, evals_field_chain)

  evals_chain_node :
      (dot : Value) (n first : Node) (fields : List Text) (args : Nodes) (final : Value)
      → nodes_size (tail args) ≤ d
      → node_size first ≤ d
      → Evals Value
          (eval_chain_node h c dot n first fields args final)
          (eval_chain_node h c' dot n first fields args final)
  unfolding eval_chain_node
  evals_chain_node dot n first fields args final s k =
      search (eval_rules, rel.eval_arg, evals_field_chain) depth 8

  evals_after_variable :
      (dot : Value) (n : Node) (r : List Text) (args : Nodes) (final v : Value)
      → nodes_size (tail args) ≤ d
      → Evals Value
          (after_variable h c dot n r args final v)
          (after_variable h c' dot n r args final v)
  unfolding after_variable
  evals_after_variable dot n [] args final v s = search (eval_rules, evals_not_a_function)
  evals_after_variable dot n (x ∷ r) args final v s = search evals_field_chain

  evals_variable_node :
      (dot : Value) (n : Node) (ident : List Text) (args : Nodes) (final : Value)
      → nodes_size (tail args) ≤ d
      → Evals Value
          (eval_variable_node h c dot n ident args final)
          (eval_variable_node h c' dot n ident args final)
  unfolding eval_variable_node
  evals_variable_node dot n [] args final s = evals_runtime_error h l _ _
  evals_variable_node dot n (x ∷ r) args final s =
      search (eval_rules, evals_record, evals_after_variable) depth 7

  evals_function :
      (dot : Value) (n : Node) (name : Text) (cmd : Node) (args : Nodes) (final : Value)
      → nodes_size (tail args) ≤ d
      → Evals Value
          (eval_function h c dot n name cmd args final)
          (eval_function h c' dot n name cmd args final)
  unfolding eval_function
  evals_function dot n name cmd args final s =
      search (eval_rules, evals_call h l d c c' rel jump) depth 7

  evals_word : (dot : Value) (n : Node) → Evals Value (eval_word h c dot n) (eval_word h c' dot n)
  unfolding eval_word
  evals_word dot (bool_node p b) = evals_pure h l _ _
  evals_word dot (dot_node p) = evals_pure h l _ _
  evals_word dot (nil_node p) = evals_errorf h l _ _
  evals_word dot (number_node p x) = evals_constant h l _ _
  evals_word dot (string_node p s) = evals_pure h l _ _
  evals_word dot n = search eval_rules

  evals_simple :
      (dot : Value) (n : Node) (k : ℕ) (final : Value)
      → Evals Value (simple_command h c dot n k final) (simple_command h c' dot n k final)
  unfolding simple_command
  evals_simple dot n k final = search (eval_rules, evals_not_a_function, evals_word)

  evals_command :
      (dot : Value) (p : ℕ) (first : Node) (rest : Nodes) (final : Value)
      → node_size first ≤ d
      → nodes_size rest ≤ d
      → Evals Value
          (eval_command h c dot p first rest final)
          (eval_command h c' dot p first rest final)
  unfolding eval_command
  evals_command dot p (field_node q x) rest final s k = search evals_field_node
  evals_command dot p (chain_node q n x) rest final s k =
      let first = chain_fits q d n x (omega arith) in search evals_chain_node
  evals_command dot p (identifier_node q x) rest final s k = search evals_function
  evals_command dot p (pipe_node q) rest final s k =
      let fits = pipe_fits d q (omega arith) in
      search (eval_rules, evals_not_a_function, rel.eval_pipeline)
  evals_command dot p (variable_node q x) rest final s k = search evals_variable_node
  evals_command dot p n rest final s k = search evals_simple

  evals_commands :
      (dot : Value) (cmds : Commands) (v : Value)
      → commands_size cmds ≤ d
      → Evals Value (eval_commands h c dot cmds v) (eval_commands h c' dot cmds v)
  unfolding eval_commands
  evals_commands dot end v s = evals_pure h l _ _
  evals_commands dot (command p n ns rest) v s =
      let (first, args, others) = command_fits p d n ns rest s in
      evals_bind h l _ _ _ _ _ _ (evals_command dot p n ns v first args)
        λ u. evals_commands dot rest _ others

  evals_declare :
      (b : Bool) (xs : List Text) (v : Value)
      → Evals (Unit {0}) (declare h c b xs v) (declare h c' b xs v)
  unfolding declare
  evals_declare b [] v = evals_pure h l _ _
  evals_declare b (x ∷ xs) v = search (eval_rules, evals_declare b xs v)

  pub evals_pipeline :
      (dot : Value) (p : OptPipe)
      → opt_pipe_size p ≤ suc d
      → Evals Value (eval_pipeline h c dot p) (eval_pipeline h c' dot p)
  unfolding eval_pipeline
  evals_pipeline dot no_pipe s = evals_pure h l _ _
  evals_pipeline dot (some_pipe (pipeline p a decl cmds)) s =
      let fits = pipeline_fits p d a decl cmds s in
      search (eval_rules, evals_commands, evals_declare) depth 7

  evals_empty_interface :
      (dot : Value) (n : Node)
      → node_size n ≤ suc d
      → Evals Value (eval_empty_interface h c dot n) (eval_empty_interface h c' dot n)
  unfolding eval_empty_interface
  evals_empty_interface dot (field_node q x) s = search (eval_rules, nil_fits d, evals_field_node)
  evals_empty_interface dot (identifier_node q x) s =
      search (eval_rules, nil_fits d, evals_function)
  evals_empty_interface dot (variable_node q x) s =
      search (eval_rules, nil_fits d, evals_variable_node)
  evals_empty_interface dot (pipe_node q) s =
      let fits = pipe_fits d q s in search (eval_rules, rel.eval_pipeline)
  evals_empty_interface dot n s = search (eval_rules, evals_constant)

  evals_literal :
      (dot : Value) (t : Typ) (n : Node)
      → node_size n ≤ suc d
      → Evals Value (eval_literal h c dot t n) (eval_literal h c' dot t n)
  unfolding eval_literal
  evals_literal dot t_bool n s = evals_bool h l n
  evals_literal dot t_complex n s = evals_complex h l n
  evals_literal dot t_float n s = evals_float h l n
  evals_literal dot t_int n s = evals_integer h l n
  evals_literal dot t_any n s = evals_empty_interface dot n s
  evals_literal dot t_value n s = search (eval_rules, evals_empty_interface)
  evals_literal dot t_string n s = evals_string h l n
  evals_literal dot t_uint n s = evals_unsigned h l n
  evals_literal dot t n s = search eval_rules

  evals_nil : (t : Option Typ) → Evals Value (eval_nil h c t) (eval_nil h c' t)
  unfolding eval_nil
  evals_nil none = evals_runtime_error h l _ _
  evals_nil (some t) = search eval_rules

  evals_typed :
      (dot : Value) (t : Option Typ) (n : Node)
      → node_size n ≤ suc d
      → Evals Value (eval_typed h c dot t n) (eval_typed h c' dot t n)
  unfolding eval_typed
  evals_typed dot none n s = evals_runtime_error h l _ _
  evals_typed dot (some t) n s = evals_literal dot t n s

  pub evals_arg :
      (dot : Value) (t : Option Typ) (n : Node)
      → node_size n ≤ suc d
      → Evals Value (eval_arg h c dot t n) (eval_arg h c' dot t n)
  unfolding eval_arg
  evals_arg dot t (dot_node q) s = search (eval_rules, evals_validate)
  evals_arg dot t (nil_node q) s = search (eval_rules, evals_nil)
  evals_arg dot t (field_node q x) s =
      search (eval_rules, nil_fits d, evals_field_node, evals_validate)
  evals_arg dot t (variable_node q x) s =
      search (eval_rules, nil_fits d, evals_variable_node, evals_validate)
  evals_arg dot t (pipe_node q) s =
      let fits = pipe_fits d q s in search (eval_rules, rel.eval_pipeline, evals_validate)
  evals_arg dot t (identifier_node q x) s =
      search (eval_rules, nil_fits d, evals_function, evals_validate)
  evals_arg dot t (chain_node q n x) s =
      let fits = chain_fits q d n x s in
      search (eval_rules, nil_fits d, evals_chain_node, evals_validate)
  evals_arg dot t n s = search (eval_rules, evals_typed)
