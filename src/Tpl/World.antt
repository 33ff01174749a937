-- ===== src/Tpl/World.antt =====
-- The state of an execution, tools/helmprov/tpl/exec.go: `inner` is the rest of Go's `state`, `out`
-- the writer's text, and `trace` what provenance adds. Computations change the world and return or
-- panic; what was written before a panic stays written. `out_of_fuel` is the model's own panic, which
-- no handler of the program recovers.
use cartograph_nvim.Base.{ℕ, Text, Bool, Option, none, some, List}
use cartograph_nvim.Tpl.Syntax.{Node}
use cartograph_nvim.Tpl.Value.{Value}
use cartograph_nvim.Tpl.Record.{Span, Recorder}
use cartograph_nvim.Tpl.Host.{Template, Group}

pub record Variable : Type 0 where
  pub name : Text
  pub value : Value

-- `vars` has the top of the stack first. `included` counts the running includes of a name.
pub record Inner : Type 0 where
  pub tmpl : Template
  pub group : Group
  pub node : Option Node
  pub vars : List Variable
  pub depth : ℕ
  pub sym_hit : Bool
  pub included : List (Text × ℕ)

-- `count` is the byte counter of a top-level execution, `spans` the spans of its file, `cur` the
-- action being evaluated, `rec` the active recorder.
pub record Trace : Type 0 where
  pub count : Option ℕ
  pub spans : List Span
  pub cur : Option Span
  pub rec : Option Recorder

pub record World : Type 0 where
  pub inner : Inner
  pub out : Text
  pub trace : Trace

pub data Panic : Type 0 where
  -- the template's name and the error's text
  exec_error : Text → Text → Panic
  runtime_error : Text → Panic
  walk_break walk_continue out_of_fuel : Panic

pub data Result (A : Type 0) : Type 0 where
  ok : A → Result A
  panics : Panic → Result A

abbrev pub M : Type 0 → Type 0
M A = World → Result A × World

unfoldable pub pure : {A : Type 0} → A → M A
pure a w = (ok a, w)

unfoldable pub raise : {A : Type 0} → Panic → M A
raise p w = (panics p, w)

abbrev pub continue : {A B : Type 0} → (A → M B) → Result A → World → Result B × World
continue f (ok a) w = f a w
continue f (panics p) w = (panics p, w)

infixl 5 ◌>>=◌ ◌>>◌
unfoldable pub ◌>>=◌ : {A B : Type 0} → M A → (A → M B) → M B
◌>>=◌ m f w = continue f (m w).0 (m w).1

abbrev pub ◌>>◌ : {B : Type 0} → M (Unit {0}) → M B → M B
m >> k = m >>= λ _. k

-- A step for each case of an option.
abbrev pub on_option : {A B : Type 0} → Option A → M B → (A → M B) → M B
on_option none m f = m
on_option (some a) m f = f a

-- Reads of the state, and changes of it that are not provenance.
unfoldable pub inner : M Inner
inner w = (ok w.inner, w)

unfoldable pub update : (Inner → Inner) → M (Unit {0})
update f w = (ok tt, record w { inner = f w.inner })
