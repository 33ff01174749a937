-- ===== src/Tpl/Sym.antt =====
-- Placeholders of a symbolic render, tools/helmprov/tpl/prov.go: a `.Values` path, or an expression
-- over unknowns.
use cartograph_nvim.Base.{Text, codes, has_prefix, text_eq, ◌∷◌, [], ◌++◌, Bool, if◌then◌else◌}

pub record Sym : Type 0 where
  pub path : Text
  pub expr : Text

-- the brackets of a marker, U+27E8 and U+27E9, in UTF-8
abbrev pub open_mark : Text
open_mark = 0xE2 ∷ 0x9F ∷ 0xA8 ∷ []

abbrev pub close_mark : Text
close_mark = 0xE2 ∷ 0x9F ∷ 0xA9 ∷ []

abbrev pub is_empty : Text → Bool
is_empty s = text_eq s []

-- the expression that a placeholder stands for, without the brackets
unfoldable pub inner : Sym → Text
unfolding codes text_eq
inner y =
    if is_empty y.expr
    then (if is_empty y.path then codes ".Values" else codes ".Values." ++ y.path)
    else y.expr

-- `String`
unfoldable pub show_sym : Sym → Text
unfolding codes text_eq
show_sym y =
    if is_empty y.expr
    then (if is_empty y.path
        then open_mark ++ (codes ".Values" ++ close_mark)
        else open_mark ++ (codes ".Values." ++ (y.path ++ close_mark)))
    else open_mark ++ (y.expr ++ close_mark)

-- an element segment `[]` joins without a dot: `a[].b`
unfoldable pub separator : Text → Text
unfolding has_prefix codes
separator f = if has_prefix f (codes "[") then [] else codes "."

-- a placeholder one segment longer
unfoldable pub field : Sym → Text → Sym
unfolding separator text_eq
field y f =
    if is_empty y.expr
    then (if is_empty y.path
        then record { path = f; expr = [] }
        else record { path = y.path ++ (separator f ++ f); expr = [] })
    else record { path = []; expr = y.expr ++ (separator f ++ f) }
