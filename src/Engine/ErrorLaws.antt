-- ===== src/Engine/ErrorLaws.antt =====
-- The parse of the error texts that the executor builds: errorf of tools/helmprov/tpl/exec.go and
-- parseTemplateExecErrorString of tools/helmprov/engine/engine.go.
use cartograph_nvim.Base.{
  ℕ, Text, codes, has_prefix, index, Bool, false, ◌≡◌, refl, ap, ◌∙◌, none, some, Option-cases,
  Bool-cases, inl, inr, [], ◌∷◌, ◌++◌, ◌==◌, arith, ◌||◌,
}
use mathlib.Core.List.{append_assoc}
use cartograph_nvim.Base.TextLaws.{has_prefix-append, drop-length-append}
use cartograph_nvim.Tpl.Syntax.{Node}
use cartograph_nvim.Tpl.Host.{Host}
use cartograph_nvim.Tpl.World.{Inner}
use cartograph_nvim.Tpl.State.{error_text, has_byte}
use cartograph_nvim.Engine.Errors.{
  TraceableError, cut, unchained, parse_no_template, parse_location, parse_at, parse_function,
  parse_executing, parse_error,
}

abbrev pub contains : ℕ → Text → Bool
contains c [] = false
contains c (d ∷ t) = (c == d) || contains c t

-- A text without a byte is a prefix only of what stands before the byte.
prefix-before :
    (a : Text) (c : ℕ) (x p : Text)
    → contains c p ≡ false
    → has_prefix a p ≡ false
    → has_prefix (a ++ (c ∷ x)) p ≡ false
unfolding has_prefix
prefix-before [] c x [] f n = ground arith
prefix-before [] c x (d ∷ p) f n = ground arith
prefix-before (y ∷ a) c x [] f n = ground arith
prefix-before (y ∷ a) c x (d ∷ p) f n = elim (Bool-cases (y == d)) [
  | inl b ↦ ground (arith, prefix-before a c x p)
  | inr b ↦ rw b refl
]

later-prefix :
    (y : ℕ) (a : Text) (c : ℕ) (t b : Text)
    → contains c t ≡ false
    → has_prefix (y ∷ a) (c ∷ t) ≡ false
    → has_prefix (y ∷ (a ++ (c ∷ (t ++ b)))) (c ∷ t) ≡ false
unfolding has_prefix
later-prefix y a c t b f n = elim (Bool-cases (y == c)) [
  | inl e ↦ ground (arith, prefix-before a c (t ++ b) t f)
  | inr e ↦ rw e refl
]

pub index_step :
    (y : ℕ) (a p : Text)
    → index (y ∷ a) p ≡ none
    → (has_prefix (y ∷ a) p ≡ false) × (index a p ≡ none)
unfolding index
index_step y a p n = elim (Bool-cases (has_prefix (y ∷ a) p)) [
  | inl e ↦ ground arith
  | inr e ↦ elim (Option-cases (index a p)) [ inl k ↦ (e, k) | inr (i, k) ↦ ground arith ]
]

-- A separator whose first byte is not among its others cuts where it was put.
pub cut-append :
    (a : Text) (c : ℕ) (t b : Text)
    → contains c t ≡ false
    → index a (c ∷ t) ≡ none
    → cut (a ++ ((c ∷ t) ++ b)) (c ∷ t) ≡ some (a, b)
unfolding cut
cut-append [] c t b f n =
    rw (has_prefix-append (c ∷ t) b) (ap (λ r. some ([], r)) (drop-length-append (c ∷ t) b))
cut-append (y ∷ a) c t b f n =
    let (e, k) = index_step y a (c ∷ t) n in
    rw (later-prefix y a c t b f e, cut-append a c t b f k) refl

-- What the parse gives for the text of an error at a node.
abbrev pub traceable : Text → Text → Text → Text → TraceableError
traceable location name context msg = record {
  location = location;
  message = unchained msg;
  executed_function =
      codes "executing \"" ++ (name ++ (codes "\" at <" ++ (context ++ codes ">:")));
}

location_lem :
    (location name context msg : Text)
    → index context (codes ">: ") ≡ none
    → parse_location location name (context ++ (codes ">: " ++ msg))
      ≡ some (traceable location name context msg)
unfolding parse_location codes
location_lem location name context msg n =
    rw (parse_location, cut-append context 0x3E (0x3A ∷ 0x20 ∷ []) msg refl n) refl

at_lem :
    (location name context msg : Text)
    → index context (codes ">: ") ≡ none
    → parse_at location name (codes " at <" ++ (context ++ (codes ">: " ++ msg)))
      ≡ some (traceable location name context msg)
unfolding parse_at codes has_prefix
at_lem location name context msg n = location_lem location name context msg n

function_lem :
    (location name context msg : Text)
    → index name (codes "\"") ≡ none
    → index context (codes ">: ") ≡ none
    → parse_function location
        (0x22 ∷ (name ++ (0x22 ∷ (codes " at <" ++ (context ++ (codes ">: " ++ msg))))))
      ≡ some (traceable location name context msg)
unfolding parse_function
function_lem location name context msg k n =
    let tail = codes " at <" ++ (context ++ (codes ">: " ++ msg)) in
    let c : cut (name ++ (0x22 ∷ tail)) (codes "\"") ≡ some (name, tail) =
      unfold codes in cut-append name 0x22 [] tail refl k in
    rw c (at_lem location name context msg n)

executing_lem :
    (location name context msg : Text)
    → index location (codes ": executing ") ≡ none
    → index name (codes "\"") ≡ none
    → index context (codes ">: ") ≡ none
    → parse_executing (
        location
        ++ (codes ": executing "
            ++ ((0x22 ∷ (name ++ (0x22 ∷ [])))
                ++ (codes " at <" ++ (context ++ (codes ">: " ++ msg))))))
      ≡ some (traceable location name context msg)
unfolding parse_executing
executing_lem location name context msg l k n =
    let tail = codes " at <" ++ (context ++ (codes ">: " ++ msg)) in
    let after = (0x22 ∷ (name ++ (0x22 ∷ []))) ++ tail in
    let c : cut (location ++ (codes ": executing " ++ after)) (codes ": executing ")
        ≡ some (location, after) =
      unfold codes in cut-append location 0x3A (codes " executing ") after refl l in
    let same : after ≡ 0x22 ∷ (name ++ (0x22 ∷ tail)) =
      ap (λ r. 0x22 ∷ r) (append_assoc name (0x22 ∷ []) tail) in
    rw (parse_executing, c)
      (ap (λ r. parse_function location r) same ∙ function_lem location name context msg k n)

parse_lem :
    (rest : Text) (t : TraceableError)
    → has_prefix rest (codes "no template ") ≡ false
    → parse_executing rest ≡ some t
    → parse_error (codes "template: " ++ rest) ≡ some t
unfolding parse_error parse_no_template codes has_prefix
parse_lem rest t p e = rw (p, e) refl

-- The part of an error's text that follows `template: `.
abbrev error_rest : Text → Text → Text → Text → Text
error_rest location name context msg =
    location
    ++ (codes ": executing "
        ++ ((0x22 ∷ (name ++ (0x22 ∷ []))) ++ (codes " at <" ++ (context ++ (codes ">: " ++ msg)))))

error_text_lem :
    (h : Host) (s : Inner) (n : Node) (location name context msg : Text)
    → s.node ≡ some n
    → h.error_context s.tmpl.name n ≡ (location, context)
    → h.quote s.tmpl.name ≡ 0x22 ∷ (name ++ (0x22 ∷ []))
    → has_byte 0x25 location ≡ false
    → error_text h s msg ≡ codes "template: " ++ error_rest location name context msg
unfolding error_text
error_text_lem h s n location name context msg e c q b = rw (error_text, e, c, q, b) refl

-- The text of an error that the executor raises at a node parses to the node's location, the template's
-- name, the node's text and the message up to a chained error, where the location contains no `%`,
-- neither begins with `no template ` nor contains `: executing `, the quoted name is a text without quotes between quotes,
-- and the node's text does not contain `>: `.
pub parse_error-error_text :
    (h : Host) (s : Inner) (n : Node) (location name context msg : Text)
    → s.node ≡ some n
    → h.error_context s.tmpl.name n ≡ (location, context)
    → h.quote s.tmpl.name ≡ 0x22 ∷ (name ++ (0x22 ∷ []))
    → has_byte 0x25 location ≡ false
    → has_prefix location (codes "no template ") ≡ false
    → index location (codes ": executing ") ≡ none
    → index name (codes "\"") ≡ none
    → index context (codes ">: ") ≡ none
    → parse_error (error_text h s msg) ≡ some (traceable location name context msg)
parse_error-error_text h s n location name context msg e c q b p l k m =
    let rest = error_rest location name context msg in
    let no : has_prefix rest (codes "no template ") ≡ false =
      unfold codes in prefix-before location 0x3A _ (codes "no template ") refl p in
    ap (λ x. parse_error x) (error_text_lem h s n location name context msg e c q b)
    ∙ parse_lem rest (traceable location name context msg) no
        (executing_lem location name context msg l k m)
