-- ===== src/Engine/Warnings.antt =====
-- What a user reads of an error that a chart raises by `required` or `fail`: reformatExecErrorMsg and
-- initFunMap of tools/helmprov/engine/engine.go.
use cartograph_nvim.Base.{
  Text, codes, has_prefix, index, true, ◌≡◌, refl, ap, ◌∙◌, none, some, List, [], ◌∷◌, ◌++◌,
}
use cartograph_nvim.Tpl.Syntax.{Node}
use cartograph_nvim.Tpl.Value.{Value}
use cartograph_nvim.Tpl.Host.{Host, Answer, value, error}
use cartograph_nvim.Tpl.World.{Inner}
use cartograph_nvim.Tpl.State.{error_text}
use cartograph_nvim.Engine.ErrorLaws.{cut-append}
use cartograph_nvim.Engine.Messages.{parts_after, two_parts, reformat_exec_error}

-- What stands in an error's text between the location and the error of a called function.
abbrev pub opening : Text → Text → Text → Text
opening quoted context name =
    codes "executing "
    ++ (quoted
        ++ (codes " at <"
            ++ (context ++ (codes ">: " ++ (codes "error calling " ++ (name ++ codes ": "))))))

pub two_parts_lem :
    (location rest : Text)
    → index location (codes ": ") ≡ none
    → two_parts (codes "template: " ++ (location ++ (codes ": executing " ++ rest)))
      ≡ some (location, codes "executing " ++ rest)
unfolding two_parts codes
two_parts_lem location rest n =
    let tail = location ++ (codes ": executing " ++ rest) in
    ap (λ x. parts_after x)
      (cut-append (codes "template") 0x3A (0x20 ∷ []) tail refl (unfold index has_prefix in refl))
    ∙ cut-append location 0x3A (0x20 ∷ []) (codes "executing " ++ rest) refl n

-- What the user reads when a called function gives an answer.
abbrev pub reported : Host → Inner → Text → Text → List Text → Answer → Text
reported h s filename name causes (value v) = []
reported h s filename name causes (error e) = reformat_exec_error filename (record {
  is_exec = true;
  message = error_text h s (codes "error calling " ++ (name ++ (codes ": " ++ e)));
  causes = causes;
})

module _ (h : Host) (s : Inner) (n : Node) (location context : Text) where
  called_text : Text → Text → Text
  called_text name e = codes "error calling " ++ (name ++ (codes ": " ++ e))
