-- ===== src/Tests/Oracles.antt =====
-- The theorems on the oracle for values files at a small file.
use cartograph_nvim.Base.{
  codes, text_eq, Text, Bool, true, false, ◌≡◌, refl, some, none, Option, [], ◌∷◌, ◌++◌,
  if◌then◌else◌,
}
use cartograph_nvim.Tpl.Host.{lookup_key}
use cartograph_nvim.Engine.Order
use cartograph_nvim.Origin.Canon.{got, err}
use cartograph_nvim.Oracle
use cartograph_nvim.Oracle.{
  Any, null, number, text, array, table, Anys, nothing, also, Table, end, entry, Floats, Loader,
  Json, canon, run,
}
use cartograph_nvim.Oracle.Unordered.{same_table, same_swap, canon-Same}
use cartograph_nvim.Oracle.Lossless
use cartograph_nvim.Oracle.Lossless.{read_json, read-canon}
use cartograph_nvim.Oracle.Answered.{IsAnswer, run_answers}

-- Three numbers, 0, 1 and -Inf.
pub data Float : Type 0 where
  zero_one : Bool → Float
  below_all : Float

abbrev print_float : Float → Text
print_float (zero_one b) = if b then codes "1" else codes "0"
print_float below_all = codes "-Inf"

abbrev is_below : Float → Bool
is_below (zero_one b) = false
is_below below_all = true

abbrev floats : Floats Float
floats = record {
  is_nan = λ b. false;
  is_inf = λ b. false;
  is_neg_inf = is_below;
  is_neg_zero = λ b. false;
  print = print_float;
}

abbrev read_digit : Text → Option Float
read_digit s = some (zero_one (text_eq s (codes "1")))

abbrev numbers : Any Float
numbers = array (also (number (zero_one true)) (also (number below_all) nothing))

-- a: [1, -Inf]; b: x, and the same in the other order
abbrev values : Any Float
values = table (entry (codes "a") numbers (entry (codes "b") (text (codes "x")) end))

abbrev turned : Any Float
turned = table (entry (codes "b") (text (codes "x")) (entry (codes "a") numbers end))

canon-Same_example : canon floats values ≡ canon floats turned
unfolding codes text_eq
canon-Same_example =
    canon-Same floats values turned
      (same_table (same_swap (codes "a") (codes "b") numbers (text (codes "x")) end refl))

digits : Lossless.PrintsRead floats read_digit
unfolding codes text_eq
digits (zero_one true) e = (refl, refl)
digits (zero_one false) e = (refl, refl)
digits below_all e = unfold Lossless.kind_of in cc e

read-canon_example :
    read_json (Lossless.read_number read_digit) (canon floats values)
    ≡ some (Lossless.told floats values)
unfolding codes text_eq Order.text_lt Lossless.IsOrdered Lossless.AllOrdered Lossless.IsOrderedTable
read-canon_example =
    read-canon floats read_digit values digits (refl, ((tt, (tt, tt)), (tt, (tt, tt))))

abbrev loader : Loader Float
loader = record {
  read_file = λ p. if text_eq p (codes "none") then err (codes "no file") else got p;
  unmarshal = λ b. got none;
}

run_answers_example :
    (j : Json) × (lookup_key (codes "p") (run floats loader (codes "none" ++ (0 ∷ codes "p")))
      ≡ some j)
    × IsAnswer floats loader (codes "p") j
unfolding codes text_eq Oracle.split_nul
run_answers_example =
    run_answers floats loader (codes "none" ++ (0 ∷ codes "p")) (codes "p") (codes "none" ∷ []) []
      refl refl
