-- ===== src/Engine/Traces.antt =====
-- What a user reads of an error that is not a chart's own message: reformatExecErrorMsg of
-- tools/helmprov/engine/engine.go.
use cartograph_nvim.Base.{
  ℕ, zero, suc, Text, codes, text_eq, ◌++◌, has_prefix, index, text_eq_refl, true, false, ◌≡◌, refl,
  ap, ◌∙◌, none, some, List, [], ◌∷◌, if◌then◌else◌, arith,
}
use mathlib.Core.List.{append-nil}
use cartograph_nvim.Tpl.Call.{trim_left, trim_right}
use cartograph_nvim.Engine.Errors.{TraceableError, parse_error, unchained}
use cartograph_nvim.Engine.ErrorLaws.{traceable, parse_error-error_text}
use cartograph_nvim.Tpl.Syntax.{Node}
use cartograph_nvim.Tpl.Host.{Host}
use cartograph_nvim.Tpl.World.{Inner}
use cartograph_nvim.Tpl.State.{error_text, has_byte}
use cartograph_nvim.Engine.Messages.{
  Failure, warned, two_parts, traceable_eq, add_location, located, file_locations, show_traceable,
  show_locations, trace_of, trace_text, reformat_exec_error, reformat_parts, reformat_found,
  reformat_warned,
}

abbrev pub copies : ℕ → Text → List Text
copies zero e = []
copies (suc n) e = e ∷ copies n e

traceable_eq_refl : (t : TraceableError) → traceable_eq t t ≡ true
unfolding traceable_eq
traceable_eq_refl t =
    ground
      (arith, text_eq_refl t.location, text_eq_refl t.message, text_eq_refl t.executed_function)

-- A text that the chain repeats is not shown again.
repeated_lem :
    (n : ℕ) (e : Text) (t : TraceableError)
    → parse_error e ≡ some t
    → file_locations (some t) (copies n e) ≡ some []
unfolding file_locations
repeated_lem zero e t p = refl
repeated_lem (suc n) e t p =
    ap (λ o. located (some t) o λ u. file_locations (some u) (copies n e)) p
    ∙ (ap (add_location (some t) t) (repeated_lem n e t p)
        ∙ ap (λ b. if b then some [] else some (t ∷ [])) (traceable_eq_refl t))

first_lem :
    (n : ℕ) (e : Text) (t : TraceableError)
    → parse_error e ≡ some t
    → file_locations none (e ∷ copies n e) ≡ some (t ∷ [])
unfolding file_locations
first_lem n e t p =
    ap (λ o. located none o λ u. file_locations (some u) (copies n e)) p
    ∙ ap (add_location none t) (repeated_lem n e t p)

repeated_trace :
    (filename e location rest : Text) (t : TraceableError) (n : ℕ)
    → parse_error e ≡ some t
    → two_parts e ≡ some (location, rest)
    → warned rest ≡ none
    → reformat_exec_error filename (record { is_exec = true; message = e; causes = copies n e })
      ≡ trim_right (trim_left (show_traceable t))
unfolding reformat_exec_error reformat_parts trace_text show_locations
repeated_trace filename e location rest t n p q w =
    let err : Failure = record { is_exec = true; message = e; causes = copies n e } in
    ap (reformat_found filename err) q
    ∙ (ap (reformat_warned err location) w
        ∙ (ap (trace_of e) (first_lem n e t p)
            ∙ ap (λ s. trim_right (trim_left s)) (append-nil (show_traceable t))))

-- The three lines of an error.
abbrev pub three_lines : Text → Text → Text → Text → Text
three_lines location name context msg =
    (location ++ codes "\n  ")
    ++ (((codes "executing \"" ++ (name ++ (codes "\" at <" ++ (context ++ codes ">:"))))
          ++ codes "\n    ")
        ++ (msg ++ codes "\n"))

show_traceable_lem :
    (location name context msg : Text)
    → text_eq location [] ≡ false
    → text_eq (unchained msg) [] ≡ false
    → show_traceable (traceable location name context msg)
      ≡ three_lines location name context (unchained msg)
unfolding show_traceable codes text_eq
show_traceable_lem location name context msg p q = rw (show_traceable, p, q) refl

-- An error that the executor raises at a node, and whose chain repeats its text any number of times, is
-- shown once: the location, the template's name with the node's text, and the message up to a chained
-- error, each on a line of its own, without blanks at the ends. The conditions are those under which
-- the text parses; the location and the message are not empty, the text has three parts, and the third
-- does not hold a chart's own message.
pub reformat-repeated :
    (h : Host) (s : Inner) (k : Node) (filename location name context msg rest : Text) (n : ℕ)
    → s.node ≡ some k
    → h.error_context s.tmpl.name k ≡ (location, context)
    → h.quote s.tmpl.name ≡ 0x22 ∷ (name ++ (0x22 ∷ []))
    → has_byte 0x25 location ≡ false
    → has_prefix location (codes "no template ") ≡ false
    → index location (codes ": executing ") ≡ none
    → index name (codes "\"") ≡ none
    → index context (codes ">: ") ≡ none
    → text_eq location [] ≡ false
    → text_eq (unchained msg) [] ≡ false
    → two_parts (error_text h s msg) ≡ some (location, rest)
    → warned rest ≡ none
    → reformat_exec_error filename (record {
      is_exec = true;
      message = error_text h s msg;
      causes = copies n (error_text h s msg);
    })
      ≡ trim_right (trim_left (three_lines location name context (unchained msg)))
reformat-repeated h s k filename location name context msg rest n e c q b p l i j f g t w =
    repeated_trace filename (error_text h s msg) location rest (traceable location name context msg)
      n (parse_error-error_text h s k location name context msg e c q b p l i j) t w
    ∙ ap (λ r. trim_right (trim_left r)) (show_traceable_lem location name context msg f g)
