-- ===== src/Tpl/Logic/Size.antt =====
-- The size of a parse tree, which bounds how deep the executor's calls of itself go below a node until
-- a template is called by name.
use cartograph_nvim.Base.{ℕ, suc, ◌+◌, ◌≤◌, arith}
use cartograph_nvim.Tpl.Syntax.{
  Node, text_node, comment_node, break_node, continue_node, dot_node, nil_node, field_node,
  identifier_node, variable_node, bool_node, number_node, string_node, command_node, action_node,
  if_node, with_node, range_node, template_node, list_node, chain_node, pipe_node, Nodes, nil, cons,
  OptNode, absent, present, Pipe, pipeline, OptPipe, no_pipe, some_pipe, Commands, end, command,
}

unfoldable mutual
  pub node_size : Node → ℕ
  node_size (action_node p pipe) = suc (pipe_size pipe)
  node_size (if_node p pipe list o) = suc (pipe_size pipe + (node_size list + opt_size o))
  node_size (with_node p pipe list o) = suc (pipe_size pipe + (node_size list + opt_size o))
  node_size (range_node p pipe list o) = suc (pipe_size pipe + (node_size list + opt_size o))
  node_size (template_node p name pipe) = suc (opt_pipe_size pipe)
  node_size (list_node p ns) = suc (nodes_size ns)
  node_size (chain_node p n fields) = suc (node_size n)
  node_size (pipe_node q) = suc (pipe_size q)
  node_size n = 1

  pub nodes_size : Nodes → ℕ
  nodes_size nil = 0
  nodes_size (cons n ns) = node_size n + nodes_size ns

  pub opt_size : OptNode → ℕ
  opt_size absent = 0
  opt_size (present n) = node_size n

  pub pipe_size : Pipe → ℕ
  pipe_size (pipeline p a decl cmds) = suc (commands_size cmds)

  pub opt_pipe_size : OptPipe → ℕ
  opt_pipe_size no_pipe = 1
  opt_pipe_size (some_pipe q) = pipe_size q

  pub commands_size : Commands → ℕ
  commands_size end = 0
  commands_size (command p n ns rest) = node_size n + (nodes_size ns + commands_size rest)

pub node_positive : (n : Node) → 1 ≤ node_size n
unfolding node_size
node_positive (text_node p t) = omega arith
node_positive (comment_node p) = omega arith
node_positive (action_node p pipe) = omega arith
node_positive (break_node p) = omega arith
node_positive (continue_node p) = omega arith
node_positive (if_node p pipe list o) = omega arith
node_positive (with_node p pipe list o) = omega arith
node_positive (range_node p pipe list o) = omega arith
node_positive (template_node p name pipe) = omega arith
node_positive (list_node p ns) = omega arith
node_positive (dot_node p) = omega arith
node_positive (nil_node p) = omega arith
node_positive (field_node p xs) = omega arith
node_positive (chain_node p n xs) = omega arith
node_positive (identifier_node p x) = omega arith
node_positive (variable_node p xs) = omega arith
node_positive (bool_node p b) = omega arith
node_positive (number_node p x) = omega arith
node_positive (string_node p x) = omega arith
node_positive (pipe_node q) = omega arith
node_positive (command_node p ns) = omega arith

pub pipe_positive : (p : OptPipe) → 1 ≤ opt_pipe_size p
unfolding opt_pipe_size
pipe_positive no_pipe = omega arith
pipe_positive (some_pipe (pipeline p a decl cmds)) = omega arith
