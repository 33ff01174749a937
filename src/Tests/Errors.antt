-- ===== src/Tests/Errors.antt =====
-- The theorems on error texts at errors of a small template.
use cartograph_nvim.Base.{
  codes, text_eq, true, last_index, ◌≡◌, refl, some, none, [], ◌∷◌, ◌++◌, Text, has_prefix, index,
}
use cartograph_nvim.Tests.Sample.{host, start}
use cartograph_nvim.Tpl.Host.{Host}
use cartograph_nvim.Tpl.World.{Inner}
use cartograph_nvim.Tpl.State.{error_text, has_byte}
use cartograph_nvim.Tpl.Syntax.{text_node}
use cartograph_nvim.Engine.Errors.{parse_error, unchained}
use cartograph_nvim.Engine.ErrorLaws.{traceable, parse_error-error_text}
use cartograph_nvim.Engine.Messages
use cartograph_nvim.Engine.Messages.{cleanup_parse_error, reformat_exec_error, show_traceable}
use cartograph_nvim.Engine.Errors
use cartograph_nvim.Engine.Traces
use cartograph_nvim.Engine.Traces.{three_lines, reformat-repeated}
use cartograph_nvim.Tpl.Call.{trim_left, trim_right}
use cartograph_nvim.Engine.ParseErrors.{cleanup-parse_error}

-- A host with names in quotes, and one place for every node.
abbrev quoting : Host
quoting = record host {
  quote = λ s. 0x22 ∷ (s ++ (0x22 ∷ []));
  error_context = λ name n. (name ++ codes ":1:2", codes ".x.y");
}

abbrev at_text : Inner
at_text = record (start none).inner { node = some (text_node 1 (codes "x")) }

parse_error-error_text_example :
    parse_error (error_text quoting at_text (codes "nil pointer"))
    ≡ some (traceable (codes "main:1:2") (codes "main") (codes ".x.y") (codes "nil pointer"))
unfolding codes has_prefix index has_byte
parse_error-error_text_example =
    parse_error-error_text quoting at_text (text_node 1 (codes "x")) (codes "main:1:2")
      (codes "main") (codes ".x.y") (codes "nil pointer") refl refl refl refl refl refl refl refl

-- A message that itself contains a delimiter.
abbrev message : Text
message = codes "a HELM_ERR_END: b"

cleanup-parse_error_example :
    (cleanup_parse_error
        (codes "f.yaml")
        (codes "template: " ++ (codes "f.yaml:1" ++ (codes ": " ++ codes "unexpected EOF")))
      ≡ codes "parse error at (" ++ (codes "f.yaml:1" ++ (codes "): " ++ codes "unexpected EOF")))
    × (cleanup_parse_error (codes "f.yaml") (
          codes "template: "
          ++ (codes "f.yaml:1"
              ++ (codes ": " ++ (codes "bad token" ++ (codes ": " ++ codes "unexpected EOF")))))
        ≡ codes "parse error at (" ++ (codes "f.yaml:1" ++ (codes "): " ++ codes "unexpected EOF")))
unfolding codes has_prefix index has_byte
cleanup-parse_error_example =
    cleanup-parse_error (codes "f.yaml") (codes "f.yaml:1") (codes "bad token")
      (codes "unexpected EOF") refl refl

-- The text of the error above, which its chain repeats.
abbrev error_at : Text
error_at = error_text quoting at_text (codes "nil pointer")

abbrev after_location : Text
after_location = codes "executing \"main\" at <.x.y>: nil pointer"

reformat-repeated_example :
    reformat_exec_error
      (codes "main")
      (record { is_exec = true; message = error_at; causes = Traces.copies 2 error_at })
    ≡ trim_right (
        trim_left (
          three_lines
            (codes "main:1:2")
            (codes "main")
            (codes ".x.y")
            (unchained (codes "nil pointer"))))
unfolding codes has_prefix index has_byte text_eq last_index Messages.two_parts Messages.warned
    Errors.cut error_text unchained
reformat-repeated_example =
    reformat-repeated quoting at_text (text_node 1 (codes "x")) (codes "main") (codes "main:1:2")
      (codes "main") (codes ".x.y") (codes "nil pointer") after_location 2 refl refl refl refl refl
      refl refl refl refl refl refl refl
