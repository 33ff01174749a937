-- ===== src/Tpl/Logic/Walk.antt =====
-- The walk over a template keeps the logic, if the calls below it do; and so does every level of
-- the executor.
use cartograph_nvim.Base.{◌+◌, ◌≤◌, arith, ℕ, suc, Text, Bool, List, [], ◌∷◌}
use cartograph_nvim.Tpl.Syntax.{
  Node, text_node, action_node, if_node, with_node, range_node, template_node, list_node, Nodes,
  nil, cons, OptNode, absent, present, Pipe, pipeline, OptPipe, some_pipe,
}
use cartograph_nvim.Tpl.Value.{Value, invalid, int, uint, slice, map_of}
use cartograph_nvim.Base.Int.{pos, negsuc}
use cartograph_nvim.Tpl.Host.{Host}
use cartograph_nvim.Tpl.World.{M}
use cartograph_nvim.Tpl.Calls.{Calls}
use cartograph_nvim.Tpl.Walk.{
  range_int, range_items, items_of, explore, take_else, true_arm, false_arm, walk_if_or_with,
  set_range_vars, one_iteration, iterate, walk_range1, push_all, record_range, walk_range,
  print_text, eval_action, walk_nodes, walk_node, walk,
}
use cartograph_nvim.Tpl.Run.{step}
use cartograph_nvim.Tpl.Logic.Defs.{Logic, CallsRelated, JumpsRelated}
use cartograph_nvim.Tpl.Logic.Size.{node_size, nodes_size, opt_size, pipe_size, opt_pipe_size}
use cartograph_nvim.Tpl.Logic.Rules.{evals_pure, walks_of_evals, eval_rules, walk_rules}
use cartograph_nvim.Tpl.Logic.Call.{cons_fits}
use cartograph_nvim.Tpl.Logic.Eval.{evals_pipeline, evals_arg}

module _ (h : Host) (l : Logic h) where
  open l use {Evals, Walks}

  evals_range_int :
      (decl : List Text) (v : Value) (items : List (Value × Value))
      → Evals (List (Value × Value)) (range_int h decl v items) (range_int h decl v items)
  unfolding range_int
  evals_range_int decl v items = search eval_rules

  evals_range_items :
      (decl : List Text) (v : Value)
      → Evals (List (Value × Value)) (range_items h decl v) (range_items h decl v)
  unfolding range_items
  evals_range_items decl (int (pos n)) = search evals_range_int
  evals_range_items decl (int (negsuc n)) = search evals_range_int
  evals_range_items decl (uint n) = search evals_range_int
  evals_range_items decl (slice vs) = evals_pure h l _ _
  evals_range_items decl (map_of es) = evals_pure h l _ _
  evals_range_items decl invalid = evals_pure h l _ _
  evals_range_items decl v = search eval_rules

  evals_items :
      (decl : List Text) (v : Value)
      → Evals (List (Value × Value)) (items_of h decl v) (items_of h decl v)
  unfolding items_of
  evals_items decl v = search (eval_rules, evals_range_items)

nodes_fit : (p d : ℕ) (ns : Nodes) → node_size (list_node p ns) ≤ suc d → nodes_size ns ≤ d
unfolding node_size
nodes_fit p d ns s = omega arith

-- The pipeline, the list and the other list of a control node.
abbrev Fits : ℕ → Pipe → Node → OptNode → Type 0
Fits d pipe list o = (opt_pipe_size (some_pipe pipe) ≤ d) × (node_size list ≤ d) × (opt_size o ≤ d)

sum-Fits :
    (d : ℕ) (pipe : Pipe) (list : Node) (o : OptNode)
    → suc (pipe_size pipe + (node_size list + opt_size o)) ≤ suc d
    → Fits d pipe list o
unfolding node_size
sum-Fits d pipe list o s = (omega arith, omega arith, omega arith)

present_fits : (d : ℕ) (n : Node) → opt_size (present n) ≤ d → node_size n ≤ d
unfolding node_size
present_fits d n s = s

fits_present : (d : ℕ) (n : Node) → node_size n ≤ d → opt_size (present n) ≤ d
unfolding node_size
fits_present d n s = s

absent_fits : (d : ℕ) → opt_size absent ≤ d
unfolding node_size
absent_fits d = omega arith

action_fits :
    (p d : ℕ) (pipe : Pipe)
    → node_size (action_node p pipe) ≤ suc d
    → opt_pipe_size (some_pipe pipe) ≤ d
unfolding node_size
action_fits p d pipe s = omega arith

template_fits :
    (p d : ℕ) (name : Text) (pipe : OptPipe)
    → node_size (template_node p name pipe) ≤ suc d
    → opt_pipe_size pipe ≤ d
unfolding node_size
template_fits p d name pipe s = omega arith

module _ (h : Host) (l : Logic h) (d : ℕ) (c c' : Calls) (rel : CallsRelated h l d c c')
    (jump : JumpsRelated h l d c c') where
  open l use {Evals, Walks}

  walks_eval : (A : Type 0) (m m' : M A) → Evals A m m' → Walks A m m'
  walks_eval A m m' p = walks_of_evals h l A m m' p

  walks_explore_arm :
      (n : Node) (kind : Text) (pipe : Pipe) (which : Text) (dot : Value) (o : OptNode)
      (pre pre' : M (Unit {0}))
      → opt_size o ≤ d
      → Walks (Unit {0}) pre pre'
      → Walks
          (Unit {0})
          (explore h c n kind pipe which dot o pre)
          (explore h c' n kind pipe which dot o pre')
  unfolding explore
  walks_explore_arm n kind pipe which dot absent pre pre' s p =
      walks_of_evals h l _ _ _ (evals_pure h l _ _)
  walks_explore_arm n kind pipe which dot (present b) pre pre' s p =
      let fits = present_fits d b s in search (walk_rules, rel.walk, p)

  walks_take_else :
      (dot : Value) (o : OptNode)
      → opt_size o ≤ d
      → Walks (Unit {0}) (take_else h c dot o) (take_else h c' dot o)
  unfolding take_else
  walks_take_else dot absent s = walks_of_evals h l _ _ _ (evals_pure h l _ _)
  walks_take_else dot (present n) s = rel.walk dot n (present_fits d n s)

  walks_true_arm :
      (n : Node) (b : Bool) (kind : Text) (dot : Value) (pipe : Pipe) (list : Node) (o : OptNode)
      (v : Value)
      → Fits d pipe list o
      → Walks
          (Unit {0})
          (true_arm h c n b kind dot pipe list o v)
          (true_arm h c' n b kind dot pipe list o v)
  unfolding true_arm
  walks_true_arm n b kind dot pipe list o v (p, q, r) =
      search (walk_rules, walks_of_evals, eval_rules, rel.walk, walks_explore_arm) depth 7

  walks_false_arm :
      (n : Node) (b : Bool) (kind : Text) (dot : Value) (pipe : Pipe) (list : Node) (o : OptNode)
      (v : Value)
      → Fits d pipe list o
      → Walks
          (Unit {0})
          (false_arm h c n b kind dot pipe list o v)
          (false_arm h c' n b kind dot pipe list o v)
  unfolding false_arm
  walks_false_arm n b kind dot pipe list o v (p, q, r) =
      let here = fits_present d list q in
      search (walk_rules, walks_of_evals, eval_rules, walks_take_else, walks_explore_arm) depth 7

  walks_if_or_with :
      (n : Node) (b : Bool) (dot : Value) (pipe : Pipe) (list : Node) (o : OptNode)
      → Fits d pipe list o
      → Walks
          (Unit {0})
          (walk_if_or_with h c n b dot pipe list o)
          (walk_if_or_with h c' n b dot pipe list o)
  unfolding walk_if_or_with
  walks_if_or_with n b dot pipe list o (p, q, r) =
      let fits : Fits d pipe list o = (p, q, r) in
      search (walk_rules, walks_of_evals, rel.eval_pipeline, walks_true_arm, walks_false_arm) depth
        7

  evals_set_range_vars :
      (pipe : Pipe) (index elem : Value)
      → Evals (Unit {0}) (set_range_vars h c pipe index elem) (set_range_vars h c' pipe index elem)
  unfolding set_range_vars
  evals_set_range_vars (pipeline p a [] cmds) index elem = evals_pure h l _ _
  evals_set_range_vars (pipeline p a (x ∷ []) cmds) index elem = search eval_rules
  evals_set_range_vars (pipeline p a (x ∷ y ∷ r) cmds) index elem = search eval_rules

  walks_one_iteration :
      (pipe : Pipe) (list : Node) (index elem : Value)
      → node_size list ≤ d
      → Walks
          (Unit {0})
          (one_iteration h c pipe list index elem)
          (one_iteration h c' pipe list index elem)
  unfolding one_iteration
  walks_one_iteration pipe list index elem s =
      search (walk_rules, walks_of_evals, evals_set_range_vars, rel.walk)

  walks_iterate :
      (pipe : Pipe) (list : Node) (items : List (Value × Value))
      → node_size list ≤ d
      → Walks (Unit {0}) (iterate h c pipe list items) (iterate h c' pipe list items)
  unfolding iterate
  walks_iterate pipe list [] s = walks_of_evals h l _ _ _ (evals_pure h l _ _)
  walks_iterate pipe list ((index, elem) ∷ items) s =
      search (walk_rules, walks_one_iteration, walks_iterate pipe list items s)

  walks_range1 :
      (n : Node) (dot : Value) (pipe : Pipe) (list : Node) (o : OptNode)
      → Fits d pipe list o
      → Walks (Bool × Text) (walk_range1 h c n dot pipe list o) (walk_range1 h c' n dot pipe list o)
  unfolding walk_range1
  walks_range1 n dot pipe list o (p, q, r) =
      search
        (
          walk_rules,
          walks_of_evals,
          eval_rules,
          rel.eval_pipeline,
          evals_items h l,
          walks_iterate,
          walks_take_else,
        )
        depth 9

  evals_push_all : (xs : List Text) → Evals (Unit {0}) (push_all h c xs) (push_all h c' xs)
  unfolding push_all
  evals_push_all [] = evals_pure h l _ _
  evals_push_all (x ∷ xs) = search (eval_rules, evals_push_all xs)

  walks_record_range :
      (n : Node) (dot : Value) (pipe : Pipe) (list : Node) (o : OptNode) (b : Bool) (t : Text)
      → Fits d pipe list o
      → Walks
          (Unit {0})
          (record_range h c n dot pipe list o b t)
          (record_range h c' n dot pipe list o b t)
  unfolding record_range
  walks_record_range n dot pipe list o b t (p, q, r) =
      let here = fits_present d list q in
      search (walk_rules, walks_of_evals, eval_rules, walks_explore_arm, evals_push_all) depth 7

  walks_range :
      (n : Node) (dot : Value) (pipe : Pipe) (list : Node) (o : OptNode)
      → Fits d pipe list o
      → Walks (Unit {0}) (walk_range h c n dot pipe list o) (walk_range h c' n dot pipe list o)
  unfolding walk_range
  walks_range n dot pipe list o fits =
      search (walk_rules, walks_of_evals, eval_rules, walks_range1, walks_record_range) depth 7

  evals_print_text : (n : Node) (v : Value) → Evals Text (print_text h c n v) (print_text h c' n v)
  unfolding print_text
  evals_print_text n v = search eval_rules

  evals_action :
      (n : Node) (dot : Value) (pipe : Pipe)
      → opt_pipe_size (some_pipe pipe) ≤ d
      → Evals Text (eval_action h c n dot pipe) (eval_action h c' n dot pipe)
  unfolding eval_action
  evals_action n dot pipe s = search (eval_rules, rel.eval_pipeline, evals_print_text) depth 8

  walks_nodes :
      (dot : Value) (ns : Nodes)
      → nodes_size ns ≤ d
      → Walks (Unit {0}) (walk_nodes h c dot ns) (walk_nodes h c' dot ns)
  unfolding walk_nodes
  walks_nodes dot nil s = walks_of_evals h l _ _ _ (evals_pure h l _ _)
  walks_nodes dot (cons n ns) s =
      let (p, q) = cons_fits n ns d s in search (walk_rules, rel.walk, walks_nodes dot ns q)

  walks_node :
      (dot : Value) (n : Node)
      → node_size n ≤ suc d
      → Walks (Unit {0}) (walk_node h c dot n) (walk_node h c' dot n)
  unfolding walk_node
  walks_node dot (action_node p pipe) s =
      let fits = action_fits p d pipe s in
      search (walk_rules, walks_of_evals, eval_rules, evals_action)
  walks_node dot (if_node p pipe list o) s =
      let fits = sum-Fits d pipe list o (unfold node_size in s) in
      search (walk_rules, walks_of_evals, eval_rules, walks_if_or_with)
  walks_node dot (list_node p ns) s =
      let fits = nodes_fit p d ns s in search (walk_rules, walks_of_evals, eval_rules, walks_nodes)
  walks_node dot (range_node p pipe list o) s =
      let fits = sum-Fits d pipe list o (unfold node_size in s) in
      search (walk_rules, walks_of_evals, eval_rules, walks_range)
  walks_node dot (template_node p name pipe) s =
      let fits = template_fits p d name pipe s in
      search (walk_rules, walks_of_evals, eval_rules, jump.template)
  walks_node dot (text_node p text) s = search (walk_rules, walks_of_evals, eval_rules)
  walks_node dot (with_node p pipe list o) s =
      let fits = sum-Fits d pipe list o (unfold node_size in s) in
      search (walk_rules, walks_of_evals, eval_rules, walks_if_or_with)
  walks_node dot n s = search (walks_of_evals, eval_rules)

  walks_walk :
      (dot : Value) (n : Node)
      → node_size n ≤ suc d
      → Walks (Unit {0}) (walk h c dot n) (walk h c' dot n)
  unfolding walk
  walks_walk dot n s = search (walk_rules, walks_node)

  -- What holds of the calls below trees of a size holds one level up of the trees of the next size.
  pub step-related : CallsRelated h l (suc d) (step h c) (step h c')
  unfolding step
  step-related = record {
    walk = walks_walk;
    eval_pipeline = evals_pipeline h l d c c' rel jump;
    eval_arg = evals_arg h l d c c' rel jump;
  }
