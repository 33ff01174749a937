-- ===== src/Oracle/Answered.antt =====
-- The answers to the paths on stdin, main of tools/oracles/helm_values/main.go.
use cartograph_nvim.Base.{
  Text, Option, none, codes, text_eq, text_eq_sound, text_eq_refl, false, ◌≡◌, refl, ap, ◌∙◌,
  Bool-cases, inl, inr, some, List, [], ◌∷◌, ◌++◌, if◌then◌else◌,
}
use cartograph_nvim.Tpl.Host.{set_key, lookup_key}
use cartograph_nvim.Tpl.Halting.Spare.{lookup-set}
use cartograph_nvim.Origin.Canon.{Tried, got, err}
use cartograph_nvim.Oracle.{
  Json, string, list, member, empty, item, table, Table, Floats, Loader, canon, spaced, documents,
  split_nul, answer_to, answers, run,
}

module _ {F : Type 0} (f : Floats F) (l : Loader F) where
  abbrev HasAnswer : Text → List (Text × Json) → Type 0
  HasAnswer p out = lookup_key p out ≡ some (answer_to f l p)

  -- The answer to a path does not depend on when it is given.
  HasAnswer-set :
      (p q : Text) (out : List (Text × Json))
      → HasAnswer p out
      → HasAnswer p (set_key q (answer_to f l q) out)
  HasAnswer-set p q out a = elim (Bool-cases (text_eq q p)) [
    | inl e ↦
        lookup-set q p (answer_to f l q) out
        ∙ (ap (λ b. if b then some (answer_to f l q) else lookup_key p out) e
            ∙ ap (λ t. some (answer_to f l t)) (text_eq_sound q p e))
    | inr e ↦
        lookup-set q p (answer_to f l q) out
        ∙ (ap (λ b. if b then some (answer_to f l q) else lookup_key p out) e ∙ a)
  ]

  HasAnswer-new :
      (p : Text) (out : List (Text × Json)) → HasAnswer p (set_key p (answer_to f l p) out)
  HasAnswer-new p out =
      lookup-set p p (answer_to f l p) out
      ∙ ap (λ b. if b then some (answer_to f l p) else lookup_key p out) (text_eq_refl p)

  answers_keep :
      (p : Text) (ps : List Text) (out : List (Text × Json))
      → HasAnswer p out
      → HasAnswer p (answers f l ps out)
  unfolding answers
  answers_keep p [] out a = a
  answers_keep p (q ∷ ps) out a = elim (Bool-cases (text_eq q [])) [
    | inl e ↦ rw e (answers_keep p ps out a)
    | inr e ↦ rw e (answers_keep p ps (set_key q (answer_to f l q) out) (HasAnswer-set p q out a))
  ]

  answers_give :
      (p : Text) (before after : List Text) (out : List (Text × Json))
      → text_eq p [] ≡ false
      → HasAnswer p (answers f l (before ++ (p ∷ after)) out)
  unfolding answers
  answers_give p [] after out n =
      rw n (answers_keep p after (set_key p (answer_to f l p) out) (HasAnswer-new p out))
  answers_give p (q ∷ before) after out n = elim (Bool-cases (text_eq q [])) [
    | inl e ↦ rw e (answers_give p before after out n)
    | inr e ↦ rw e (answers_give p before after (set_key q (answer_to f l q) out) n)
  ]

-- What is printed for the path `p`: the error of reading its file, that of loading what is read, with
-- its lines joined by blanks, or the canonical form of the documents that are loaded.
pub data IsAnswer {F : Type 0} (f : Floats F) (l : Loader F) (p : Text) : Json → Type 0 where
  unreadable :
      (e : Text) → l.read_file p ≡ err e → IsAnswer f l p (member (codes "error") (string e))
  malformed :
      (b e : Text)
      → l.read_file p ≡ got b
      → l.unmarshal b ≡ err e
      → IsAnswer f l p (member (codes "error") (string (spaced e)))
  no_document :
      (b : Text)
      → l.read_file p ≡ got b
      → l.unmarshal b ≡ got none
      → IsAnswer f l p (member (codes "value") (member (codes "__a") (list empty)))
  document :
      (b : Text) (m : Table F)
      → l.read_file p ≡ got b
      → l.unmarshal b ≡ got (some m)
      → IsAnswer f l p
          (member (codes "value") (member (codes "__a") (list (item (canon f (table m)) empty))))

module _ {F : Type 0} (f : Floats F) (l : Loader F) (p : Text) where
  loaded-IsAnswer :
      (b : Text) (o : Tried (Option (Table F)))
      → l.read_file p ≡ got b
      → l.unmarshal b ≡ o
      → IsAnswer f l p (elim o [
        | err e ↦ member (codes "error") (string (spaced e))
        | got docs ↦ documents f l docs
      ])
  unfolding documents
  loaded-IsAnswer b (err e) r u = malformed b e r u
  loaded-IsAnswer b (got none) r u = no_document b r u
  loaded-IsAnswer b (got (some m)) r u = document b m r u

  read-IsAnswer :
      (o : Tried Text)
      → l.read_file p ≡ o
      → IsAnswer f l p (elim o [
        | err e ↦ member (codes "error") (string e)
        | got b ↦ elim (l.unmarshal b) [
          | err e ↦ member (codes "error") (string (spaced e))
          | got docs ↦ documents f l docs
        ]
      ])
  read-IsAnswer (err e) r = unreadable e r
  read-IsAnswer (got b) r = loaded-IsAnswer b (l.unmarshal b) r refl

  answer_to-IsAnswer : IsAnswer f l p (answer_to f l p)
  unfolding answer_to
  answer_to-IsAnswer = read-IsAnswer (l.read_file p) refl

-- Under every path on stdin that is not empty stands, whatever the other paths are and how often it is
-- given: the error of reading its file, the error of loading the file with its lines joined by blanks,
-- or the list of the canonical form of the document, which is empty where the file has none.
pub run_answers :
    {F : Type 0} (f : Floats F) (l : Loader F) (all p : Text) (before after : List Text)
    → split_nul all ≡ before ++ (p ∷ after)
    → text_eq p [] ≡ false
    → (j : Json) × (lookup_key p (run f l all) ≡ some j) × IsAnswer f l p j
unfolding run
run_answers f l all p before after e n = (
  answer_to f l p,
  ap (λ ps. lookup_key p (answers f l ps [])) e ∙ answers_give f l p before after [] n,
  answer_to-IsAnswer f l p,
)
