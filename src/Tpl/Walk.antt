-- ===== src/Tpl/Walk.antt =====
-- The walk over a template, tools/helmprov/tpl/exec.go: text, actions, control nodes and templates,
-- with the arms that are recorded and explored.
use cartograph_nvim.Base.{
  ℕ, zero, suc, ◌+◌, Text, codes, length, Bool, true, false, not, List, [], ◌∷◌, ◌++◌,
  if◌then◌else◌, ltb, ◌==◌, is_some,
}
use cartograph_nvim.Base.Int.{pos, negsuc}
use cartograph_nvim.Tpl.Syntax.{
  Node, text_node, comment_node, action_node, break_node, continue_node, if_node, with_node,
  range_node, template_node, list_node, Nodes, nil, cons, OptNode, absent, present, Pipe, pipeline,
  OptPipe, some_pipe,
}
use cartograph_nvim.Tpl.Sym.{show_sym, field}
use cartograph_nvim.Tpl.Value.{
  Value, invalid, pointer, int, uint, str, map_of, slice, sym, Values, empty, also, Entries, end,
  entry, is_valid, type_of, is_true, indirect, indirect_interface, sym_of,
}
use cartograph_nvim.Tpl.Host.{Host, Template, lookup_template}
use cartograph_nvim.Tpl.World.{
  M, on_option, pure, raise, runtime_error, walk_break, walk_continue, ◌>>=◌, ◌>>◌, inner,
}
use cartograph_nvim.Tpl.State.{
  errorf, at, push, set_var, set_top_var, popping, catch_break, catch_continue,
}
use cartograph_nvim.Tpl.Prov.{arm, record_dot, exploring, cond_text}
use cartograph_nvim.Tpl.Brackets.{walk_text, walk_action, invoke_with, explore_with, sym_guard}
use cartograph_nvim.Tpl.Calls.{Calls}

abbrev pub max_exec_depth : ℕ
max_exec_depth = 100000

abbrev pub is_present : OptNode → Bool
is_present absent = false
is_present (present n) = true

abbrev pub declared : Pipe → List Text
declared (pipeline p a decl cmds) = decl

abbrev pub assigns : Pipe → Bool
assigns (pipeline p a decl cmds) = a

-- The index and the element of each iteration; none for a value that `range` refuses.
unfoldable pub range_slice : ℕ → Values → List (Value × Value)
range_slice i empty = []
range_slice i (also v vs) = (int (pos i), v) ∷ range_slice (i + 1) vs

unfoldable pub range_entries : Entries → List (Value × Value)
range_entries end = []
range_entries (entry k v es) = (str k, v) ∷ range_entries es

-- the numbers from `i`, `n` of them
unfoldable pub range_numbers : (ℕ → Value) → ℕ → ℕ → List (Value × Value)
range_numbers f i zero = []
range_numbers f i (suc n) = (invalid, f i) ∷ range_numbers f (i + 1) n

module _ (h : Host) where
  unfoldable pub range_int : List Text → Value → List (Value × Value) → M (List (Value × Value))
  unfolding codes
  range_int decl v items =
      if ltb 1 (length decl)
      then errorf h (
          codes "can't use " ++ (h.show_value v ++ codes " to iterate over more than one variable"))
      else pure items

  unfoldable pub range_items : List Text → Value → M (List (Value × Value))
  unfolding range_int range_slice range_entries range_numbers codes
  range_items decl (int (pos n)) =
      range_int decl (int (pos n)) (range_numbers (λ k. int (pos k)) 0 n)
  range_items decl (int (negsuc n)) = range_int decl (int (negsuc n)) []
  range_items decl (uint n) = range_int decl (uint n) (range_numbers uint 0 n)
  range_items decl (slice vs) = pure (range_slice 0 vs)
  range_items decl (map_of es) = pure (range_entries es)
  range_items decl invalid = pure []
  range_items decl v = errorf h (codes "range can't iterate over " ++ h.show_value v)

  -- The range over a placeholder is one element that stands for all.
  unfoldable pub items_of : List Text → Value → M (List (Value × Value))
  unfolding range_items codes
  items_of decl v = on_option (sym_of v) (range_items decl v) λ y. pure (
      (sym (record { path = []; expr = codes "key of " ++ show_sym y }), sym (field y (codes "[]")))
      ∷ [])

module _ (h : Host) (c : Calls) where
  -- `explore` of an arm; an arm that is not there is not explored
  unfoldable pub explore : Node → Text → Pipe → Text → Value → OptNode → M (Unit {0}) → M (Unit {0})
  explore n kind pipe which dot absent pre = pure tt
  explore n kind pipe which dot (present arm_list) pre =
      explore_with h n kind pipe which (pre >>= λ _. c.walk dot arm_list)

  unfoldable pub take_else : Value → OptNode → M (Unit {0})
  take_else dot absent = pure tt
  take_else dot (present n) = c.walk dot n

  -- the arms of an if or a with, once the truth of its value is known
  unfoldable pub true_arm :
      Node → Bool → Text → Value → Pipe → Node → OptNode → Value → M (Unit {0})
  unfolding codes explore
  true_arm n is_with kind dot pipe list else_list v = do
    let taken = if is_some (sym_of v) then codes "unknown" else codes "then"
    arm h n kind pipe taken (is_present else_list) (cond_text h v)
    c.walk (if is_with then v else dot) list
    explore n kind pipe (codes "else") dot else_list (pure tt)

  unfoldable pub false_arm :
      Node → Bool → Text → Value → Pipe → Node → OptNode → Value → M (Unit {0})
  unfolding codes explore take_else
  false_arm n is_with kind dot pipe list else_list v = do
    let taken = if is_present else_list then codes "else" else codes "none"
    arm h n kind pipe taken (is_present else_list) (cond_text h v)
    take_else dot else_list
    explore n kind pipe (codes "then") (if is_with then v else dot) (present list) (pure tt)

  -- walkIfOrWith
  unfoldable pub walk_if_or_with : Node → Bool → Value → Pipe → Node → OptNode → M (Unit {0})
  unfolding true_arm false_arm is_true codes
  walk_if_or_with n is_with dot pipe list else_list = popping do
    v ← c.eval_pipeline dot (some_pipe pipe)
    let kind = if is_with then codes "with" else codes "if"
    if is_true (indirect_interface v)
        then true_arm n is_with kind dot pipe list else_list v
        else false_arm n is_with kind dot pipe list else_list v

  -- the variables of one iteration: the last is the element, the one before it the index
  unfoldable pub set_range_vars : Pipe → Value → Value → M (Unit {0})
  set_range_vars (pipeline p a [] cmds) index elem = pure tt
  set_range_vars (pipeline p a (x ∷ []) cmds) index elem =
      if a then set_var h x elem else set_top_var 1 elem
  set_range_vars (pipeline p a (x ∷ y ∷ r) cmds) index elem = do
    if a then set_var h x index else set_top_var 1 elem
    if a then set_var h y elem else set_top_var 2 index

  -- oneIteration: what the body pushes is popped, a continue ends it
  unfoldable pub one_iteration : Pipe → Node → Value → Value → M (Unit {0})
  unfolding set_range_vars
  one_iteration pipe list index elem = do
    set_range_vars pipe index elem
    popping (catch_continue (c.walk elem list))

  unfoldable pub iterate : Pipe → Node → List (Value × Value) → M (Unit {0})
  unfolding one_iteration
  iterate pipe list [] = pure tt
  iterate pipe list ((index, elem) ∷ items) = do
    one_iteration pipe list index elem
    iterate pipe list items

  abbrev pub any_item : List (Value × Value) → Bool
  any_item [] = false
  any_item (x ∷ xs) = true

  -- walkRange1: whether an iteration was begun, and the text of what was ranged over
  unfoldable pub walk_range1 : Node → Value → Pipe → Node → OptNode → M (Bool × Text)
  unfolding iterate take_else indirect
  walk_range1 n dot pipe list else_list = popping do
    at n
    u ← c.eval_pipeline dot (some_pipe pipe)
    let v = (indirect u).0
    items ← items_of h (declared pipe) v
    catch_break (if any_item items then iterate pipe list items else take_else dot else_list)
    pure (any_item items, cond_text h v)

  unfoldable pub push_all : List Text → M (Unit {0})
  push_all [] = pure tt
  push_all (x ∷ xs) = do push x invalid; push_all xs

  unfoldable pub record_range : Node → Value → Pipe → Node → OptNode → Bool → Text → M (Unit {0})
  unfolding explore push_all codes
  record_range n dot pipe list else_list iterated cond =
      if iterated
      then (do
        arm h n (codes "range") pipe (codes "body") (is_present else_list) cond
        explore n (codes "range") pipe (codes "else") dot else_list (pure tt))
      else do
        arm h n (codes "range") pipe (codes "empty") (is_present else_list) cond
        explore n (codes "range") pipe (codes "body") invalid (present list)
            (push_all (declared pipe))

  -- walkRange
  unfoldable pub walk_range : Node → Value → Pipe → Node → OptNode → M (Unit {0})
  unfolding walk_range1 record_range
  walk_range n dot pipe list else_list = do
    r ← walk_range1 n dot pipe list else_list
    b ← exploring
    if b then record_range n dot pipe list else_list r.0 r.1 else pure tt

  unfoldable pub invoke : Value → Template → OptPipe → M (Unit {0})
  unfolding codes
  invoke dot t pipe = do
    v ← c.eval_pipeline dot pipe
    on_option t.root (raise (runtime_error (codes "nil pointer dereference")))
        λ root. invoke_with t v (c.walk v root)

  -- walkTemplate
  unfoldable pub walk_template : Node → Value → Text → OptPipe → M (Unit {0})
  unfolding invoke codes
  walk_template n dot name pipe = do
    at n
    s ← inner
    on_option (lookup_template s.group.templates name)
        (errorf h (codes "template " ++ (h.quote name ++ codes " not defined")))
        λ t.
          if s.depth == max_exec_depth
          then errorf h (codes "exceeded maximum template depth (100000)")
          else invoke dot t pipe

  -- printableValue: through pointers; the zero Value prints as no value
  unfoldable pub print_text : Node → Value → M Text
  unfolding codes is_valid type_of
  print_text n v =
      if not (is_valid v)
      then pure (codes "<no value>")
      else if h.printable v
      then pure (h.show_value v)
      else errorf h (
          codes "can't print "
          ++ (h.node_string n ++ (codes " of type " ++ h.show_type (type_of v))))

  unfoldable pub strip_pointer : Value → Value
  unfolding indirect
  strip_pointer (pointer v) = (indirect v).0
  strip_pointer v = v

  -- printValue: the text that an action prints
  unfoldable pub print_value : Node → Value → M Text
  unfolding print_text strip_pointer
  print_value n v = do at n; print_text n (strip_pointer v)

  -- an action prints its value unless it declares variables
  unfoldable pub eval_action : Node → Value → Pipe → M Text
  unfolding print_value
  eval_action n dot pipe = do
    record_dot h n dot
    v ← c.eval_pipeline dot (some_pipe pipe)
    if length (declared pipe) == 0 then print_value n v else pure []

  unfoldable pub walk_nodes : Value → Nodes → M (Unit {0})
  walk_nodes dot nil = pure tt
  walk_nodes dot (cons n ns) = do c.walk dot n; walk_nodes dot ns

  -- walk1
  unfoldable pub walk_node : Value → Node → M (Unit {0})
  unfolding eval_action walk_if_or_with walk_range walk_template walk_nodes codes
  walk_node dot (action_node p pipe) = do
    at (action_node p pipe)
    walk_action h (action_node p pipe) (eval_action (action_node p pipe) dot pipe)
  walk_node dot (break_node p) = do at (break_node p); raise walk_break
  walk_node dot (comment_node p) = at (comment_node p)
  walk_node dot (continue_node p) = do at (continue_node p); raise walk_continue
  walk_node dot (if_node p pipe list else_list) = do
    at (if_node p pipe list else_list)
    walk_if_or_with (if_node p pipe list else_list) false dot pipe list else_list
  walk_node dot (list_node p ns) = do at (list_node p ns); walk_nodes dot ns
  walk_node dot (range_node p pipe list else_list) = do
    at (range_node p pipe list else_list)
    walk_range (range_node p pipe list else_list) dot pipe list else_list
  walk_node dot (template_node p name pipe) = do
    at (template_node p name pipe)
    walk_template (template_node p name pipe) dot name pipe
  walk_node dot (text_node p text) = do at (text_node p text); walk_text h (text_node p text) text
  walk_node dot (with_node p pipe list else_list) = do
    at (with_node p pipe list else_list)
    walk_if_or_with (with_node p pipe list else_list) true dot pipe list else_list
  walk_node dot n = do at n; errorf h (codes "unknown node: " ++ h.node_string n)

  abbrev pub is_guarded : Node → Bool
  is_guarded (action_node p pipe) = true
  is_guarded (if_node p pipe list else_list) = true
  is_guarded (range_node p pipe list else_list) = true
  is_guarded (with_node p pipe list else_list) = true
  is_guarded (template_node p name pipe) = true
  is_guarded n = false

  -- walk
  unfoldable pub walk : Value → Node → M (Unit {0})
  unfolding walk_node
  walk dot n = if is_guarded n then sym_guard h n (walk_node dot n) else walk_node dot n
