-- ===== src/Engine/Errors.antt =====
-- The parsing of the executor's error texts, parseTemplateExecErrorString of
-- tools/helmprov/engine/engine.go.
use cartograph_nvim.Base.{
  ◌+◌, Text, codes, has_prefix, index, last_index, length, take, drop, Option, none, some, [], ◌∷◌,
  ◌++◌, if◌then◌else◌, ◌==◌,
}

-- TraceableError
pub record TraceableError : Type 0 where
  pub location : Text
  pub message : Text
  pub executed_function : Text

-- strings.Cut, with none where the separator is not found
unfoldable pub cut : Text → Text → Option (Text × Text)
unfolding has_prefix
cut [] sep = if has_prefix [] sep then some ([], []) else none
cut (c ∷ s) sep =
    let later = cut s sep in
    if has_prefix (c ∷ s) sep
    then some ([], drop (length sep) (c ∷ s))
    else elim later [ none ↦ none | some (a, b) ↦ some (c ∷ a, b) ]

-- the text up to a chained error
unfoldable pub unchained : Text → Text
unfolding index codes
unchained msg = elim (index msg (codes " template:")) [ none ↦ msg | some i ↦ take i msg ]

unfoldable pub parse_no_template : Text → Text → Option TraceableError
unfolding has_prefix codes
parse_no_template s remainder =
    if has_prefix remainder (codes "no template ")
    then some (record { location = []; message = s; executed_function = [] })
    else none

unfoldable pub parse_simple : Text → Option TraceableError
unfolding last_index unchained codes
parse_simple remainder = elim (last_index remainder (codes ": ")) [
  | none ↦ none
  | some sep ↦ some (record {
    location = take sep remainder;
    message = unchained (drop (sep + 2) remainder);
    executed_function = [];
  })
]

-- after `at <`
unfoldable pub parse_location : Text → Text → Text → Option TraceableError
unfolding cut unchained codes
parse_location template_name function_name after_at = elim (cut after_at (codes ">: ")) [
  | none ↦ none
  | some (location_name, msg) ↦ some (record {
    location = template_name;
    message = unchained msg;
    executed_function =
        codes "executing \""
        ++ (function_name ++ (codes "\" at <" ++ (location_name ++ codes ">:")));
  })
]

-- after the function's name
unfoldable pub parse_at : Text → Text → Text → Option TraceableError
unfolding has_prefix parse_location codes
parse_at template_name function_name after_func =
    if has_prefix after_func (codes " at <")
    then parse_location template_name function_name (drop 5 after_func)
    else none

-- after `executing`
unfoldable pub parse_function : Text → Text → Option TraceableError
unfolding cut parse_at codes
parse_function template_name [] = none
parse_function template_name (c ∷ after) =
    if c == 0x22
    then elim (cut after (codes "\"")) [
      | none ↦ none
      | some (function_name, after_func) ↦ parse_at template_name function_name after_func
    ]
    else none

unfoldable pub parse_executing : Text → Option TraceableError
unfolding cut parse_function codes
parse_executing remainder = elim (cut remainder (codes ": executing ")) [
  | none ↦ none
  | some (template_name, after) ↦ parse_function template_name after
]

abbrev pub or_else : {A : Type 0} → Option A → Option A → Option A
or_else (some a) o = some a
or_else none o = o

-- none where the second result is false
unfoldable pub parse_error : Text → Option TraceableError
unfolding has_prefix parse_no_template parse_executing parse_simple codes
parse_error s =
    if has_prefix s (codes "template: ")
    then (let remainder = drop 10 s in
        or_else (parse_no_template s remainder)
          (or_else (parse_executing remainder) (parse_simple remainder)))
    else none
