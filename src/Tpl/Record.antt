-- ===== src/Tpl/Record.antt =====
-- What a render records, tools/helmprov/tpl/prov.go: the types of the recorder.
use cartograph_nvim.Base.{
  ℕ, Text, text_eq, Bool, List, [], ◌∷◌, false, Option, none, some, if◌then◌else◌,
}

-- One node's output: the bytes [start, stop) of its file's text.
pub record Span : Type 0 where
  pub start : ℕ
  pub stop : ℕ
  pub loc : Text
  pub kind : Text
  pub values : List Text

-- One `.Values` chain evaluated at a node.
pub record Read : Type 0 where
  pub path : Text
  pub loc : Text
  pub untaken : Bool
  pub guard : Text

-- One execution of a control node: which arm the values took.
pub record Arm : Type 0 where
  pub loc : Text
  pub kind : Text
  pub pipe : Text
  pub taken : Text
  pub has_else : Bool
  pub value : Text
  pub untaken : Bool

-- One execution of an untaken arm: its text, and the error and its place when it failed.
pub record Explored : Type 0 where
  pub guard : Text
  pub text : Text
  pub loc : Text
  pub err : Text

-- What `.` was at one action.
pub record Dot : Type 0 where
  pub values : List Text
  pub n : ℕ

pub record File : Type 0 where
  pub name : Text
  pub spans : List Span

-- `files` and `dots` are maps, kept as lists; `guards` has the innermost first.
pub record Recorder : Type 0 where
  pub files : List File
  pub reads : List Read
  pub arms : List Arm
  pub explored : List Explored
  pub branches : Bool
  pub symbolic : Bool
  pub dots_on : Bool
  pub dots : List (Text × Dot)
  pub depth : ℕ
  pub guards : List Text

-- NewRecorder
unfoldable pub new_recorder : Recorder
new_recorder = record {
  files = [];
  reads = [];
  arms = [];
  explored = [];
  branches = false;
  symbolic = false;
  dots_on = false;
  dots = [];
  depth = 0;
  guards = [];
}

-- The spans on file under a name.
unfoldable pub find_file : Text → List File → Option (List Span)
unfolding text_eq
find_file name [] = none
find_file name (f ∷ fs) = if text_eq f.name name then some f.spans else find_file name fs
