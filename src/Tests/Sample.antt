-- ===== src/Tests/Sample.antt =====
-- A small chart: a main template with text, an action, a condition and an include, and its values.
use cartograph_nvim.Base.{
  ℕ, Text, codes, text_eq, if◌then◌else◌, true, false, Option, none, some, [], ◌∷◌, ◌++◌, String,
}
use cartograph_nvim.Tpl.Syntax.{
  Node, text_node, action_node, if_node, list_node, dot_node, field_node, identifier_node,
  string_node, nil, cons, present, Pipe, pipeline, end, command,
}
use cartograph_nvim.Tpl.Value
use cartograph_nvim.Tpl.Value.{Typ, t_string, t_any, Value, interface, str, bool, map_of, entry}
use cartograph_nvim.Tpl.Host.{Host, Function, include, value, Template, Group, map_zero_value}
use cartograph_nvim.Tpl.Record.{Recorder}
use cartograph_nvim.Tpl.World.{World}
use cartograph_nvim.Engine.Prepare.{Parsed, parsed, unparsed, Engine}

unfoldable pub show_plain : Value → Text
unfolding codes
show_plain (str s) = s
show_plain v = codes "?"

unfoldable pub pos_of : Node → Text
unfolding codes
pos_of (text_node p t) = p ∷ []
pos_of (action_node p q) = p ∷ []
pos_of (if_node p q a b) = p ∷ []
pos_of n = []

-- A location is the template's name and the position.
abbrev pub host : Host
host = record {
  misread = λ location name context msg. msg;
  tpl = λ ts args. some (value (str []));
  error_context = λ name n. (name ++ pos_of n, []);
  node_string = λ n. codes "node";
  quote = λ s. s;
  show_value = show_plain;
  show_type = λ t. codes "type";
  assignable = λ t u. true;
  method = λ v name. none;
  struct_field = λ n name. none;
  printable = λ v. true;
  builtin = λ name. none;
}

abbrev pub include_function : Function
include_function = record {
  params = t_string ∷ t_any ∷ [];
  variadic = none;
  fault = none;
  body = include;
}

abbrev pub values_pipe : ℕ → String → Pipe
values_pipe p x =
    pipeline p false [] (command p (field_node p (codes "Values" ∷ codes x ∷ [])) nil end)

abbrev include_pipe : Pipe
include_pipe = pipeline 50 false [] (
    command 50 (identifier_node 50 (codes "include"))
      (cons (string_node 51 (codes "help")) (cons (dot_node 52) nil)) end)

-- x={{ .Values.a }}{{ if .Values.b }}T{{ else }}E{{ end }}{{ include "help" . }}
abbrev pub main_root : Node
main_root = list_node 0 (
    cons (text_node 1 (codes "x=")) (
      cons (action_node 2 (values_pipe 3 "a")) (
        cons
          (if_node 4 (values_pipe 5 "b") (list_node 6 (cons (text_node 7 (codes "T")) nil))
            (present (list_node 8 (cons (text_node 9 (codes "E")) nil))))
          (cons (action_node 10 include_pipe) nil))))

abbrev pub main_template : Template
main_template = record { name = codes "main"; root = some main_root }

-- [{{ .Values.a }}]
abbrev pub help_template : Template
help_template = record {
  name = codes "help";
  root = some (
      list_node 0 (
        cons (text_node 1 (codes "["))
          (cons (action_node 2 (values_pipe 3 "a")) (cons (text_node 4 (codes "]")) nil))));
}

abbrev pub group : Group
group = record {
  templates = main_template ∷ help_template ∷ [];
  funcs = (codes "include", include_function) ∷ [];
  missing_key = map_zero_value;
}

abbrev pub chart_values : Value
chart_values = map_of (
    entry (codes "Values")
      (map_of (
        entry (codes "a") (interface (str (codes "val")))
          (entry (codes "b") (interface (bool false)) Value.Entries.end)))
      Value.Entries.end)

-- The world before a render, with a recorder or with none.
abbrev pub start : Option Recorder → World
start rec = record {
  inner = record {
    tmpl = main_template;
    group = group;
    node = none;
    vars = [];
    depth = 0;
    sym_hit = false;
    included = [];
  };
  out = [];
  trace = record { count = none; spans = []; cur = none; rec = rec };
}

-- A stand-in for the parser: the text `bad` does not parse, `help` is the included template and every
-- other text the main one.
abbrev pub sample_parse : Text → Text → Group → Parsed
sample_parse name text g =
    if text_eq text (codes "bad")
    then unparsed (codes "template: " ++ (name ++ codes ":1: unexpected EOF"))
    else if text_eq text (codes "help")
    then parsed (record g {
      templates = record help_template { name = name } ∷ help_template ∷ g.templates;
    })
    else parsed (record g { templates = record main_template { name = name } ∷ g.templates })

abbrev pub sample_engine : Engine
sample_engine = record {
  strict = false;
  lint_mode = false;
  enable_dns = false;
  custom_template_funcs = [];
  func_map = [];
  parse = sample_parse;
}
