-- ===== src/Tpl/Eval.antt =====
-- The evaluation of pipelines, commands and their arguments, tools/helmprov/tpl/exec.go.
use cartograph_nvim.Base.{
  ℕ, suc, Text, codes, text_eq, Bool, true, false, not, ◌||◌, Option, none, some, List, [], ◌∷◌,
  ◌++◌, if◌then◌else◌, ltb, is_some,
}
use cartograph_nvim.Tpl.Syntax.{
  Node, dot_node, nil_node, field_node, chain_node, identifier_node, variable_node, bool_node,
  number_node, string_node, pipe_node, command_node, Nodes, nil, cons, pipeline, OptPipe, no_pipe,
  some_pipe, Commands, end, command,
}
use cartograph_nvim.Tpl.Sym.{field}
use cartograph_nvim.Tpl.Value.{
  Typ, t_bool, t_int, t_uint, t_float, t_complex, t_string, t_any, t_value, t_struct, Value,
  invalid, missing, nil_interface, nil_pointer, bool, str, map_of, sym, boxed, object, map_index,
  is_valid, is_missing, type_of, can_be_nil, zero_of, indirect, indirect_interface, sym_of,
}
use cartograph_nvim.Tpl.Host.{
  Function, Host, MissingKey, map_invalid, map_zero_value, map_error, Group, lookup_key,
}
use cartograph_nvim.Tpl.World.{M, on_option, pure, raise, runtime_error, ◌>>=◌, ◌>>◌, inner}
use cartograph_nvim.Tpl.State.{errorf, at, push, set_var, var_value}
use cartograph_nvim.Tpl.Prov.{symbolic, record_read, record_sym}
use cartograph_nvim.Tpl.Calls.{
  Calls, count_nodes, validate_type, ideal_constant, not_a_function, eval_bool, eval_string,
  eval_integer, eval_unsigned_integer, eval_float, eval_complex,
}
use cartograph_nvim.Tpl.Call.{eval_call}

-- findFunction: the template's own functions hide the builtins
unfoldable pub find_function : Host → Group → Text → Option (Function × Bool)
find_function h g name = elim (lookup_key name g.funcs) [
  | some f ↦ some (f, false)
  | none ↦ elim (h.builtin name) [ some f ↦ some (f, true) | none ↦ none ]
]

-- The `.Values` chain that a field or variable node reads, for the record: none if it is no such
-- chain.
unfoldable pub values_path : List Text → List Text
unfolding codes text_eq
values_path [] = []
values_path (x ∷ []) = []
values_path (x ∷ y ∷ r) = if text_eq x (codes "Values") then y ∷ r else []

unfoldable pub variable_path : List Text → List Text
unfolding values_path codes text_eq
variable_path [] = []
variable_path (x ∷ r) = if text_eq x (codes "$") then values_path r else []

module _ (h : Host) (c : Calls) where
  unfoldable pub field_error : Text → Typ → M Value
  unfolding codes
  field_error name t =
      errorf h (codes "can't evaluate field " ++ (name ++ (codes " in type " ++ h.show_type t)))

  unfoldable pub nil_error : Text → Typ → M Value
  unfolding codes
  nil_error name t =
      errorf h (codes "nil pointer evaluating " ++ (h.show_type t ++ (codes "." ++ name)))

  -- a key that a map lacks
  unfoldable pub missing_key : MissingKey → Text → M Value
  unfolding codes
  missing_key map_invalid name = pure invalid
  missing_key map_zero_value name = pure nil_interface
  missing_key map_error name = errorf h (codes "map has no entry for key " ++ h.quote name)

  -- A field of a struct, an entry of a map: `t` is the receiver's type before its indirections.
  unfoldable pub member : Typ → Text → Bool → MissingKey → Value → M Value
  unfolding missing_key field_error nil_error map_index codes
  member t name has_args mk (object n) = on_option (h.struct_field n name) (field_error name t) λ v.
      if has_args
      then errorf h (name ++ codes " has arguments but cannot be invoked as function")
      else pure v
  member t name has_args mk (map_of es) =
      if has_args
      then errorf h (name ++ codes " is not a method but has arguments")
      else on_option (map_index es name) (missing_key mk name) pure
  member t name has_args mk (nil_pointer (t_struct n)) =
      if is_some (h.struct_field n name) then nil_error name t else field_error name t
  member t name has_args mk (nil_pointer u) = nil_error name t
  member t name has_args mk v = field_error name t

  unfoldable pub is_map_error : MissingKey → Bool
  is_map_error map_error = true
  is_map_error mk = false

  unfoldable pub is_nil_interface : Value → Bool
  is_nil_interface nil_interface = true
  is_nil_interface v = false

  unfoldable pub concrete_field : Value → Text → Node → Nodes → Value → Value → M Value
  unfolding member is_valid type_of indirect is_nil_interface is_map_error count_nodes is_missing
  concrete_field dot name n args final receiver = do
    s ← inner
    let mk = s.group.missing_key
    let t = type_of receiver
    let rv = (indirect receiver).0
    let has_args = ltb 1 (count_nodes args) || not (is_missing final)
    if not (is_valid receiver)
        then (if is_map_error mk
            then errorf h (codes "nil data; no entry for key " ++ h.quote name)
            else pure invalid)
        else if is_nil_interface rv
        then nil_error name t
        else on_option (h.method rv name) (member t name has_args mk rv)
            λ f. eval_call h c dot f false n name args final

  -- evalField; a field of a placeholder is a placeholder one segment longer
  unfoldable pub eval_field : Value → Text → Node → Nodes → Value → Value → M Value
  unfolding concrete_field
  eval_field dot name n args final receiver = do
    b ← symbolic
    let concrete = concrete_field dot name n args final receiver
    on_option (sym_of receiver) concrete λ y. if b then pure (sym (field y name)) else concrete

  -- the fields of a chain; the last one gets the arguments
  unfoldable pub eval_chain : Value → Value → Node → List Text → Nodes → Value → M Value
  unfolding eval_field
  eval_chain dot receiver n [] args final = raise (runtime_error [])
  eval_chain dot receiver n (x ∷ []) args final = eval_field dot x n args final receiver
  eval_chain dot receiver n (x ∷ y ∷ r) args final =
      eval_field dot x n nil missing receiver >>= λ v. eval_chain dot v n (y ∷ r) args final

  -- evalFieldChain
  unfoldable pub eval_field_chain : Value → Value → Node → List Text → Nodes → Value → M Value
  unfolding eval_chain
  eval_field_chain dot receiver n ident args final = do
    v ← eval_chain dot receiver n ident args final
    b ← symbolic
    if b then record_sym h n v else pure tt
    pure v

  -- a `.Values` read is recorded here unless the render is symbolic
  unfoldable pub record_values : Node → List Text → M (Unit {0})
  record_values n path = do b ← symbolic; if b then pure tt else record_read h n path

  -- evalFieldNode
  unfoldable pub eval_field_node : Value → Node → List Text → Nodes → Value → M Value
  unfolding record_values values_path
  eval_field_node dot n ident args final = do
    at n
    record_values n (values_path ident)
    eval_field_chain dot dot n ident args final

  unfoldable pub is_nil_node : Node → Bool
  is_nil_node (nil_node p) = true
  is_nil_node n = false

  abbrev pub is_nil : List Text → Bool
  is_nil [] = true
  is_nil (x ∷ xs) = false

  -- evalChainNode
  unfoldable pub eval_chain_node : Value → Node → Node → List Text → Nodes → Value → M Value
  unfolding is_nil_node codes
  eval_chain_node dot n first fields args final = do
    at n
    if is_nil fields
        then errorf h (codes "internal error: no fields in evalChainNode")
        else if is_nil_node first
        then errorf h (codes "indirection through explicit nil in " ++ h.node_string n)
        else do v ← c.eval_arg dot none first; eval_field_chain dot v n fields args final

  unfoldable pub after_variable : Value → Node → List Text → Nodes → Value → Value → M Value
  after_variable dot n [] args final v = do
    not_a_function h (elim args [ nil ↦ n | cons a r ↦ a ]) (count_nodes args) final
    pure v
  after_variable dot n (x ∷ r) args final v = eval_field_chain dot v n (x ∷ r) args final

  -- evalVariableNode
  unfoldable pub eval_variable_node : Value → Node → List Text → Nodes → Value → M Value
  unfolding record_values variable_path after_variable
  eval_variable_node dot n [] args final = raise (runtime_error [])
  eval_variable_node dot n (x ∷ r) args final = do
    at n
    record_values n (variable_path (x ∷ r))
    v ← var_value h x
    after_variable dot n r args final v

  -- evalFunction
  unfoldable pub eval_function : Value → Node → Text → Node → Nodes → Value → M Value
  unfolding find_function codes
  eval_function dot n name cmd args final = do
    at n
    s ← inner
    on_option (find_function h s.group name)
        (errorf h (h.quote name ++ codes " is not a defined function"))
        λ found. eval_call h c dot found.0 found.1 cmd name args final

  -- the commands that are no call
  unfoldable pub eval_word : Value → Node → M Value
  unfolding codes
  eval_word dot (bool_node p b) = pure (bool b)
  eval_word dot (dot_node p) = pure dot
  eval_word dot (nil_node p) = errorf h (codes "nil is not a command")
  eval_word dot (number_node p x) = ideal_constant h (number_node p x) x
  eval_word dot (string_node p s) = pure (str s)
  eval_word dot n = errorf h (codes "can't evaluate command " ++ h.quote (h.node_string n))

  unfoldable pub simple_command : Value → Node → ℕ → Value → M Value
  unfolding eval_word
  simple_command dot n count final = do at n; not_a_function h n count final; eval_word dot n

  -- evalCommand: `first` is the first of the arguments
  unfoldable pub eval_command : Value → ℕ → Node → Nodes → Value → M Value
  unfolding simple_command
  eval_command dot pos (field_node p ident) rest final =
      eval_field_node dot (field_node p ident) ident (cons (field_node p ident) rest) final
  eval_command dot pos (chain_node p n fields) rest final =
      eval_chain_node dot (chain_node p n fields) n fields (cons (chain_node p n fields) rest) final
  eval_command dot pos (identifier_node p name) rest final =
      let args = cons (identifier_node p name) rest in
      eval_function dot (identifier_node p name) name (command_node pos args) args final
  eval_command dot pos (pipe_node q) rest final = do
    not_a_function h (pipe_node q) (suc (count_nodes rest)) final
    c.eval_pipeline dot (some_pipe q)
  eval_command dot pos (variable_node p ident) rest final =
      eval_variable_node dot (variable_node p ident) ident (cons (variable_node p ident) rest) final
  eval_command dot pos first rest final = simple_command dot first (suc (count_nodes rest)) final

  -- the commands of a pipeline; an interface{} result is opened
  unfoldable pub eval_commands : Value → Commands → Value → M Value
  unfolding eval_command indirect_interface
  eval_commands dot end v = pure v
  eval_commands dot (command p n ns rest) v =
      eval_command dot p n ns v >>= λ u. eval_commands dot rest (indirect_interface u)

  unfoldable pub declare : Bool → List Text → Value → M (Unit {0})
  declare is_assign [] v = pure tt
  declare is_assign (x ∷ xs) v = do
    if is_assign then set_var h x v else push x v
    declare is_assign xs v

  -- evalPipeline
  unfoldable pub eval_pipeline : Value → OptPipe → M Value
  unfolding eval_commands declare
  eval_pipeline dot no_pipe = pure invalid
  eval_pipeline dot (some_pipe (pipeline p is_assign decl cmds)) = do
    at (pipe_node (pipeline p is_assign decl cmds))
    v ← eval_commands dot cmds missing
    declare is_assign decl v
    pure v

  -- evalEmptyInterface
  unfoldable pub eval_empty_interface : Value → Node → M Value
  unfolding codes
  eval_empty_interface dot (bool_node p b) = do at (bool_node p b); pure (bool b)
  eval_empty_interface dot (dot_node p) = do at (dot_node p); pure dot
  eval_empty_interface dot (field_node p ident) = do
    at (field_node p ident)
    eval_field_node dot (field_node p ident) ident nil missing
  eval_empty_interface dot (identifier_node p name) = do
    at (identifier_node p name)
    eval_function dot (identifier_node p name) name (identifier_node p name) nil missing
  eval_empty_interface dot (nil_node p) = do
    at (nil_node p)
    errorf h (codes "evalEmptyInterface: nil (can't happen)")
  eval_empty_interface dot (number_node p x) = do
    at (number_node p x)
    ideal_constant h (number_node p x) x
  eval_empty_interface dot (string_node p s) = do at (string_node p s); pure (str s)
  eval_empty_interface dot (variable_node p ident) = do
    at (variable_node p ident)
    eval_variable_node dot (variable_node p ident) ident nil missing
  eval_empty_interface dot (pipe_node q) = do at (pipe_node q); c.eval_pipeline dot (some_pipe q)
  eval_empty_interface dot n = do
    at n
    errorf h (
        codes "can't handle assignment of "
        ++ (h.node_string n ++ codes " to empty interface argument"))

  -- a literal as an argument of a type
  unfoldable pub eval_literal : Value → Typ → Node → M Value
  unfolding eval_empty_interface codes
  eval_literal dot t_bool n = eval_bool h n
  eval_literal dot t_complex n = eval_complex h n
  eval_literal dot t_float n = eval_float h n
  eval_literal dot t_int n = eval_integer h n
  eval_literal dot t_any n = eval_empty_interface dot n
  eval_literal dot t_value n = eval_empty_interface dot n >>= λ v. pure (boxed v)
  eval_literal dot t_string n = eval_string h n
  eval_literal dot t_uint n = eval_unsigned_integer h n
  eval_literal dot t n =
      errorf h
        (codes "can't handle " ++ (h.node_string n ++ (codes " for arg of type " ++ h.show_type t)))

  unfoldable pub eval_nil : Option Typ → M Value
  unfolding can_be_nil zero_of codes
  eval_nil none = raise (runtime_error [])
  eval_nil (some t) =
      if can_be_nil t
      then pure (zero_of t)
      else errorf h (codes "cannot assign nil to " ++ h.show_type t)

  unfoldable pub eval_typed : Value → Option Typ → Node → M Value
  unfolding eval_literal
  eval_typed dot none n = raise (runtime_error [])
  eval_typed dot (some t) n = eval_literal dot t n

  -- evalArg; a literal with no type is a nil dereference
  unfoldable pub eval_arg : Value → Option Typ → Node → M Value
  unfolding eval_nil eval_typed
  eval_arg dot t (dot_node p) = do at (dot_node p); validate_type h dot t
  eval_arg dot t (nil_node p) = do at (nil_node p); eval_nil t
  eval_arg dot t (field_node p ident) = do
    at (field_node p ident)
    v ← eval_field_node dot (field_node p ident) ident (cons (field_node p ident) nil) missing
    validate_type h v t
  eval_arg dot t (variable_node p ident) = do
    at (variable_node p ident)
    v ← eval_variable_node dot (variable_node p ident) ident nil missing
    validate_type h v t
  eval_arg dot t (pipe_node q) = do
    at (pipe_node q)
    v ← c.eval_pipeline dot (some_pipe q)
    validate_type h v t
  eval_arg dot t (identifier_node p name) = do
    at (identifier_node p name)
    v ← eval_function dot (identifier_node p name) name (identifier_node p name) nil missing
    validate_type h v t
  eval_arg dot t (chain_node p n fields) = do
    at (chain_node p n fields)
    v ← eval_chain_node dot (chain_node p n fields) n fields nil missing
    validate_type h v t
  eval_arg dot t n = do at n; eval_typed dot t n
