-- ===== src/Engine/Paths.antt =====
-- Go's path.Join of two elements.
use cartograph_nvim.Base.{
  Text, codes, text_eq, has_prefix, join, Bool, List, [], ◌∷◌, ◌++◌, if◌then◌else◌, ◌==◌, ◌||◌,
}

unfoldable pub split_slash : Text → List Text
split_slash [] = [] ∷ []
split_slash (c ∷ s) = elim (split_slash s) [
  | [] ↦ (c ∷ []) ∷ []
  | x ∷ xs ↦ if c == 0x2F then [] ∷ x ∷ xs else (c ∷ x) ∷ xs
]

-- `..` drops the element before it, where there is one
unfoldable pub back : Bool → List Text → List Text
unfolding text_eq codes
back rooted [] = if rooted then [] else codes ".." ∷ []
back rooted (x ∷ xs) = if text_eq x (codes "..") then codes ".." ∷ x ∷ xs else xs

-- The elements of a clean path, the last one first.
unfoldable pub clean_elements : Bool → List Text → List Text → List Text
unfolding back text_eq codes
clean_elements rooted done [] = done
clean_elements rooted done (x ∷ xs) =
    let skipped = clean_elements rooted done xs in
    let backed = clean_elements rooted (back rooted done) xs in
    let added = clean_elements rooted (x ∷ done) xs in
    if text_eq x [] || text_eq x (codes ".")
    then skipped
    else if text_eq x (codes "..")
    then backed
    else added

unfoldable pub onto : List Text → List Text → List Text
onto [] ys = ys
onto (x ∷ xs) ys = onto xs (x ∷ ys)

-- path.Clean
unfoldable pub clean : Text → Text
unfolding split_slash clean_elements onto has_prefix join text_eq codes
clean p =
    let rooted = has_prefix p (codes "/") in
    let s = join (onto (clean_elements rooted [] (split_slash p)) []) (codes "/") in
    if rooted then codes "/" ++ s else if text_eq s [] then codes "." else s

unfoldable pub path_join : Text → Text → Text
unfolding clean text_eq codes
path_join a b =
    if text_eq a [] then (if text_eq b [] then [] else clean b) else clean (a ++ (codes "/" ++ b))
