-- ===== src/Engine/Messages.antt =====
-- The error texts of a rendering and the functions that let a chart raise one: cleanupParseError,
-- reformatExecErrorMsg, warnWrap and `required` and `fail` of initFunMap,
-- tools/helmprov/engine/engine.go.
use cartograph_nvim.Base.{
  ℕ, ◌+◌, Text, codes, text_eq, last_index, take, drop, Bool, true, false, ◌&&◌, Option, none, some,
  List, [], ◌∷◌, ◌++◌, if◌then◌else◌,
}
use cartograph_nvim.Tpl.Value.{Value, nil_interface, interface, str}
use cartograph_nvim.Tpl.Host.{Answer, value, error}
use cartograph_nvim.Tpl.Call.{trim_left, trim_right}
use cartograph_nvim.Engine.Errors.{TraceableError, cut, parse_error}

abbrev pub warn_start_delim : Text
warn_start_delim = codes "HELM_ERR_START"

abbrev pub warn_end_delim : Text
warn_end_delim = codes "HELM_ERR_END"

-- warnWrap
unfoldable pub warn_wrap : Text → Text
unfolding codes
warn_wrap warn = warn_start_delim ++ (warn ++ warn_end_delim)

-- The value is nil or the empty string.
unfoldable pub is_blank : Value → Bool
unfolding text_eq
is_blank nil_interface = true
is_blank (interface v) = is_blank v
is_blank (str s) = text_eq s []
is_blank _ = false

-- `required`; a missing value passes in lint mode
unfoldable pub required : Bool → Text → Value → Answer
unfolding is_blank warn_wrap
required lint warn v =
    if is_blank v
    then (if lint then value (interface (str [])) else error (warn_wrap warn))
    else value v

-- `fail`
unfoldable pub fail : Bool → Text → Answer
unfolding warn_wrap
fail lint msg = if lint then value (str []) else error (warn_wrap msg)

-- The calls with other arguments are refused before the function runs.
unfoldable pub call_required : Bool → List Value → Answer
unfolding required codes
call_required lint (str warn ∷ v ∷ []) = required lint warn v
call_required lint _ = error (codes "required: wrong arguments")

unfoldable pub call_fail : Bool → List Value → Answer
unfolding fail codes
call_fail lint (str msg ∷ []) = fail lint msg
call_fail lint _ = error (codes "fail: wrong arguments")

abbrev pub token_before : Text → Option (Text × Text) → Text
token_before rest none = rest
token_before rest (some (a, b)) = a

abbrev pub token_after : Text → Option ℕ → Text
token_after rest none = rest
token_after rest (some i) = drop (i + 2) rest

-- The second of the parts that `: ` separates, in what follows the first, and the last of them.
unfoldable pub first_token : Text → Text
unfolding cut
first_token rest = token_before rest (cut rest (codes ": "))

unfoldable pub last_token : Text → Text
unfolding last_index
last_token rest = token_after rest (last_index rest (codes ": "))

abbrev pub cleanup_parts : Text → Text → Option (Text × Text) → Text
cleanup_parts filename e none = codes "parse error in (" ++ (filename ++ (codes "): " ++ e))
cleanup_parts filename e (some (t, rest)) =
    codes "parse error at (" ++ (first_token rest ++ (codes "): " ++ last_token rest))

-- cleanupParseError
unfoldable pub cleanup_parse_error : Text → Text → Text
unfolding cut
cleanup_parse_error filename e = cleanup_parts filename e (cut e (codes ": "))

-- TraceableError.String
unfoldable pub show_traceable : TraceableError → Text
unfolding text_eq codes
show_traceable t =
    let line : Text → Text → Text = λ s after. if text_eq s [] then [] else s ++ after in
    line t.location (codes "\n  ")
    ++ (line t.executed_function (codes "\n    ") ++ line t.message (codes "\n"))

-- An error of ExecuteTemplate: whether an ExecError is in its chain, its text and the texts of the
-- errors that it wraps, from the outside in.
pub record Failure : Type 0 where
  pub is_exec : Bool
  pub message : Text
  pub causes : List Text

abbrev pub taken : Text → Option ℕ → Option Text
taken s none = none
taken s (some i) = some (take i s)

abbrev pub warned_after : Option (Text × Text) → Option Text
warned_after none = none
warned_after (some (a, after)) = taken after (last_index after warn_end_delim)

-- what the first group of warnRegex matches
unfoldable pub warned : Text → Option Text
unfolding cut
warned s = warned_after (cut s warn_start_delim)

unfoldable pub traceable_eq : TraceableError → TraceableError → Bool
unfolding text_eq
traceable_eq a b =
    text_eq a.location b.location
    && (text_eq a.message b.message && text_eq a.executed_function b.executed_function)

abbrev pub add_location :
    Option TraceableError
    → TraceableError
    → Option (List TraceableError)
    → Option (List TraceableError)
add_location before t none = none
add_location none t (some ts) = some (t ∷ ts)
add_location (some b) t (some ts) = if traceable_eq b t then some ts else some (t ∷ ts)

abbrev pub located :
    Option TraceableError
    → Option TraceableError
    → (TraceableError → Option (List TraceableError))
    → Option (List TraceableError)
located before none rest = none
located before (some t) rest = add_location before t (rest t)

-- The parsed texts of a chain, one that repeats the one before it left out; none where a text does
-- not parse.
unfoldable pub file_locations : Option TraceableError → List Text → Option (List TraceableError)
unfolding parse_error
file_locations before [] = some []
file_locations before (e ∷ es) = located before (parse_error e) λ t. file_locations (some t) es

unfoldable pub show_locations : List TraceableError → Text
unfolding show_traceable
show_locations [] = []
show_locations (t ∷ ts) = show_traceable t ++ show_locations ts

-- the loop over the chain; strings.TrimSpace is that of an ASCII text
abbrev pub trace_of : Text → Option (List TraceableError) → Text
trace_of e none = e
trace_of e (some ts) = trim_right (trim_left (show_locations ts))

unfoldable pub trace_text : Failure → Text
unfolding file_locations
trace_text err = trace_of err.message (file_locations none (err.message ∷ err.causes))

abbrev pub reformat_warned : Failure → Text → Option Text → Text
reformat_warned err location (some w) =
    codes "execution error at (" ++ (location ++ (codes "): " ++ w))
reformat_warned err location none = trace_text err

-- reformatExecErrorMsg of an ExecError whose text has three parts, of which the second and the third
-- are given
unfoldable pub reformat_parts : Failure → Text → Text → Text
unfolding warned
reformat_parts err location rest = reformat_warned err location (warned rest)

abbrev pub parts_after : Option (Text × Text) → Option (Text × Text)
parts_after none = none
parts_after (some (t, rest)) = cut rest (codes ": ")

-- the second part and what follows it
unfoldable pub two_parts : Text → Option (Text × Text)
unfolding cut
two_parts e = parts_after (cut e (codes ": "))

abbrev pub reformat_found : Text → Failure → Option (Text × Text) → Text
reformat_found filename err none =
    codes "execution error in (" ++ (filename ++ (codes "): " ++ err.message))
reformat_found filename err (some (location, rest)) = reformat_parts err location rest

unfoldable pub reformat_exec_error : Text → Failure → Text
unfolding two_parts
reformat_exec_error filename err =
    let parts = reformat_found filename err (two_parts err.message) in
    if err.is_exec then parts else err.message
