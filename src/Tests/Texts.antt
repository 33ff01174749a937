-- ===== src/Tests/Texts.antt =====
-- The theorems on spans that follow a text, on origins, variables and placeholders, at small inputs.
use cartograph_nvim.Base.{
  false, ◌++◌, none, Text, ℕ, codes, text_eq, some, List, [], ◌∷◌, ◌≡◌, refl, arith, length,
}
use cartograph_nvim.Tpl.Record.{Span, Recorder, find_file, new_recorder}
use cartograph_nvim.Tpl.Tiling.Spans.{Tiles}
use cartograph_nvim.Tpl.Finish.{finish, finish-Tiles}
use cartograph_nvim.Tests.Sample.{host, chart_values, start}
use cartograph_nvim.Tpl.Sym
use cartograph_nvim.Tpl.Sym.{Sym, field}
use cartograph_nvim.Tpl.Placeholders.{joint, inner-field}
use cartograph_nvim.Tpl.World.{World, Variable, ok}
use cartograph_nvim.Tpl.Value.{Value, str}
use cartograph_nvim.Tpl.State.{set_var}
use cartograph_nvim.Tpl.Variables.{set_var_topmost}
use cartograph_nvim.Origin.Tables.{
  null, text, other, table, Table, end, entry, taint, leaves, origins,
}
use cartograph_nvim.Origin.Marks.{sources, origins-taint}

abbrev span : ℕ → ℕ → Span
span a b = record { start = a; stop = b; loc = []; kind = codes "text"; values = [] }

-- The second span is the printed `<no value>`.
abbrev holed : Recorder
holed = record new_recorder {
  files = record { name = codes "f"; spans = span 0 2 ∷ span 2 12 ∷ span 12 13 ∷ [] } ∷ [];
}

holed_spans : find_file (codes "f") holed.files ≡ some (span 0 2 ∷ span 2 12 ∷ span 12 13 ∷ [])
unfolding find_file text_eq codes
holed_spans = refl

holed_end : 13 ≡ length (codes "x=<no value>;")
unfolding codes
holed_end = refl

finish-Tiles_example :
    (shifted : List Span) × (find_file
        (codes "f")
        (finish (codes "f") (codes "x=<no value>;") holed).1.files
      ≡ some shifted)
    × Tiles 0 shifted (length (finish (codes "f") (codes "x=<no value>;") holed).0)
finish-Tiles_example =
    finish-Tiles (codes "f") (codes "x=<no value>;") holed (span 0 2 ∷ span 2 12 ∷ span 12 13 ∷ [])
      holed_spans (refl, omega arith, (refl, omega arith, (refl, omega arith, holed_end)))

-- a: {b: 1, c: null}, d: {}, e: t
abbrev chart_table : Table ℕ
chart_table =
    entry (codes "a") (table (entry (codes "b") (other 1) (entry (codes "c") null end)))
      (entry (codes "d") (table end) (entry (codes "e") (text (codes "t")) end))

origins-taint_example :
    origins (leaves (taint chart_table (codes "chart") []) [])
    ≡ sources (codes "chart") (leaves chart_table [])
origins-taint_example = origins-taint chart_table (codes "chart") []

-- two variables `$x`, the first above the other, below `$`
abbrev two_variables : World
two_variables = record (start none) {
  inner = record (start none).inner {
    vars =
        record { name = codes "$"; value = chart_values }
        ∷ record { name = codes "$x"; value = str (codes "old") }
        ∷ record { name = codes "$x"; value = str (codes "older") }
        ∷ [];
  };
}

abbrev variable : Text → Value → Variable
variable name v = record { name = name; value = v }

set_var_topmost_example : set_var host (codes "$x") (str (codes "new")) two_variables ≡ (
  ok tt,
  record two_variables {
    inner = record two_variables.inner {
      vars =
          variable (codes "$") chart_values
          ∷ variable (codes "$x") (str (codes "new"))
          ∷ variable (codes "$x") (str (codes "older"))
          ∷ [];
    };
  },
)
unfolding text_eq codes
set_var_topmost_example =
    set_var_topmost host (codes "$x") (str (codes "new")) two_variables
      (variable (codes "$") chart_values ∷ []) (variable (codes "$x") (str (codes "old")))
      (variable (codes "$x") (str (codes "older")) ∷ []) refl (refl, tt) refl

-- The placeholder of `.Values.a`.
abbrev path_a : Sym
path_a = record { path = codes "a"; expr = [] }

segment_nonempty : text_eq (codes "[]") [] ≡ false
unfolding text_eq codes
segment_nonempty = refl

inner-field_example :
    Sym.inner (field path_a (codes "[]"))
    ≡ Sym.inner path_a ++ (joint path_a (codes "[]") ++ codes "[]")
inner-field_example = inner-field path_a (codes "[]") segment_nonempty
