-- ===== src/Tpl/Syntax.antt =====
-- The parse tree that the executor walks, tools/helmprov/tpl/parse/node.go. Each node has its byte
-- position; the parser that builds the tree is not modelled. A list of nodes is its own type; the arms of a
-- control node are list nodes.
use cartograph_nvim.Base.{ℕ, Text, Bool, List}
use cartograph_nvim.Base.Int.{ℤ}

-- `int64` and `uint64` are the readings of the literal; a float is given by its IEEE bits.
pub record Number : Type 0 where
  pub is_int : Bool
  pub is_uint : Bool
  pub is_float : Bool
  pub is_complex : Bool
  pub int64 : ℤ
  pub uint64 : ℕ
  pub float64 : ℕ
  pub complex128 : ℕ × ℕ
  pub text : Text

mutual
  pub data Node : Type 0 where
    text_node : ℕ → Text → Node
    comment_node : ℕ → Node
    action_node : ℕ → Pipe → Node
    break_node : ℕ → Node
    continue_node : ℕ → Node
    if_node : ℕ → Pipe → Node → OptNode → Node
    with_node : ℕ → Pipe → Node → OptNode → Node
    range_node : ℕ → Pipe → Node → OptNode → Node
    template_node : ℕ → Text → OptPipe → Node
    list_node : ℕ → Nodes → Node
    dot_node : ℕ → Node
    nil_node : ℕ → Node
    field_node : ℕ → List Text → Node
    chain_node : ℕ → Node → List Text → Node
    identifier_node : ℕ → Text → Node
    variable_node : ℕ → List Text → Node
    bool_node : ℕ → Bool → Node
    number_node : ℕ → Number → Node
    string_node : ℕ → Text → Node
    pipe_node : Pipe → Node
    command_node : ℕ → Nodes → Node

  pub data Nodes : Type 0 where
    nil : Nodes
    cons : Node → Nodes → Nodes

  pub data OptNode : Type 0 where
    absent : OptNode
    present : Node → OptNode

  -- the position, whether it assigns (`=`) or declares (`:=`), the variables, the commands
  pub data Pipe : Type 0 where
    pipeline : ℕ → Bool → List Text → Commands → Pipe

  pub data OptPipe : Type 0 where
    no_pipe : OptPipe
    some_pipe : Pipe → OptPipe

  -- a command has at least one argument
  pub data Commands : Type 0 where
    end : Commands
    command : ℕ → Node → Nodes → Commands → Commands
