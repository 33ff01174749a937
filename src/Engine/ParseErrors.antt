-- ===== src/Engine/ParseErrors.antt =====
-- What a user reads of a template that does not parse: cleanupParseError of
-- tools/helmprov/engine/engine.go.
use cartograph_nvim.Base.{
  ◌+◌, Text, codes, has_prefix, index, last_index, drop, length, ◌≡◌, refl, sym, ap, ◌∙◌, none,
  some, [], ◌∷◌, ◌++◌,
}
use cartograph_nvim.Base.TextLaws.{drop-length-append, drop-drop, last_index-append}
use mathlib.Core.Path.{ap₂}
use mathlib.Core.List.{append_assoc}
use cartograph_nvim.Engine.ErrorLaws.{cut-append, index_step}
use cartograph_nvim.Engine.Messages.{
  first_token, last_token, token_before, token_after, cleanup_parts, cleanup_parse_error,
}

last_index-none : (a p : Text) → index a p ≡ none → last_index a p ≡ none
unfolding last_index index
last_index-none [] p e = e
last_index-none (x ∷ a) p e = let (f, k) = index_step x a p e in rw (last_index-none a p k, f) refl

separator_index :
    (msg : Text)
    → index msg (codes ": ") ≡ none
    → last_index (codes ": " ++ msg) (codes ": ") ≡ some 0
unfolding last_index has_prefix codes
separator_index msg n = rw (last_index-none msg (codes ": ") n) refl

last_token_lem :
    (place msg : Text)
    → index msg (codes ": ") ≡ none
    → last_token (place ++ (codes ": " ++ msg)) ≡ msg
unfolding last_token codes
last_token_lem place msg n =
    let found = last_index-append place (codes ": " ++ msg) (codes ": ") (separator_index msg n) in
    let whole = place ++ (codes ": " ++ msg) in
    ap (λ o. token_after whole o) found
    ∙ (sym (drop-drop (length place) 2 (length place + 2) whole refl)
        ∙ ap (λ t. drop 2 t) (drop-length-append place (codes ": " ++ msg)))

place_lem :
    (filename place rest msg : Text)
    → index place (codes ": ") ≡ none
    → last_token (place ++ (codes ": " ++ rest)) ≡ msg
    → cleanup_parse_error filename (codes "template: " ++ (place ++ (codes ": " ++ rest)))
      ≡ codes "parse error at (" ++ (place ++ (codes "): " ++ msg))
unfolding cleanup_parse_error codes
place_lem filename place rest msg p last =
    let whole = place ++ (codes ": " ++ rest) in
    let cut_place : first_token whole ≡ place =
      unfold first_token in
      ap (λ o. token_before whole o) (cut-append place 0x3A (0x20 ∷ []) rest refl p) in
    ap (λ o. cleanup_parts filename (codes "template: " ++ whole) o)
      (cut-append (codes "template") 0x3A (0x20 ∷ []) whole refl (unfold index has_prefix in refl))
    ∙ ap₂ (λ a b. codes "parse error at (" ++ (a ++ (codes "): " ++ b))) cut_place last

-- Of a parser's error the user reads the place and the last part of the message: where the text of the
-- error is `template: `, the place, `: ` and the message, and the place contains no `: `, a message
-- without `: ` is read whole, and of any other what follows its last `: `.
pub cleanup-parse_error :
    (filename place before msg : Text)
    → index place (codes ": ") ≡ none
    → index msg (codes ": ") ≡ none
    → (cleanup_parse_error filename (codes "template: " ++ (place ++ (codes ": " ++ msg)))
        ≡ codes "parse error at (" ++ (place ++ (codes "): " ++ msg)))
      × (cleanup_parse_error filename
            (codes "template: " ++ (place ++ (codes ": " ++ (before ++ (codes ": " ++ msg)))))
          ≡ codes "parse error at (" ++ (place ++ (codes "): " ++ msg)))
cleanup-parse_error filename place before msg p n =
    let tail = codes ": " ++ msg in
    let start = place ++ (codes ": " ++ before) in
    let same : place ++ (codes ": " ++ (before ++ tail)) ≡ start ++ tail = sym (
      append_assoc place (codes ": " ++ before) tail
      ∙ ap (λ r. place ++ r) (append_assoc (codes ": ") before tail)) in
    (
      place_lem filename place msg msg p (last_token_lem place msg n),
      place_lem filename place (before ++ tail) msg p
          (ap (λ s. last_token s) same ∙ last_token_lem start msg n),
    )
