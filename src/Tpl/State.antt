-- ===== src/Tpl/State.antt =====
-- The variable stack, the current node and the errors of an execution, tools/helmprov/tpl/exec.go.
use cartograph_nvim.Base.{
  ℕ, Bool, false, ◌==◌, ◌||◌, zero, suc, ◌-◌, Text, codes, text_eq, length, drop, Option, none,
  some, List, [], ◌∷◌, ◌++◌, if◌then◌else◌,
}
use cartograph_nvim.Tpl.Syntax.{Node}
use cartograph_nvim.Tpl.Value.{Value}
use cartograph_nvim.Tpl.Host.{Host}
use cartograph_nvim.Tpl.World.{
  Variable, Inner, World, Result, ok, panics, exec_error, runtime_error, walk_break, walk_continue,
  M, on_option, pure, raise, ◌>>=◌, inner, update,
}

unfoldable pub has_byte : ℕ → Text → Bool
has_byte x [] = false
has_byte x (y ∷ ys) = x == y || has_byte x ys

-- The error text that `errorf` builds at the current node. It escapes the name and the node's text for
-- fmt.Errorf, but not the location.
unfoldable pub error_text : Host → Inner → Text → Text
unfolding codes has_byte
error_text h s msg = elim s.node [
  | none ↦ codes "template: " ++ (s.tmpl.name ++ (codes ": " ++ msg))
  | some n ↦
      let (location, context) = h.error_context s.tmpl.name n in
      if has_byte 0x25 location
      then h.misread location (h.quote s.tmpl.name) context msg
      else codes "template: "
        ++ (location
            ++ (codes ": executing "
                ++ (h.quote s.tmpl.name ++ (codes " at <" ++ (context ++ (codes ">: " ++ msg))))))
]

unfoldable pub errorf : {A : Type 0} → Host → Text → M A
errorf h msg = do s ← inner; raise (exec_error s.tmpl.name (error_text h s msg))

unfoldable pub at : Node → M (Unit {0})
at n = update (λ s. record s { node = some n })

unfoldable pub push : Text → Value → M (Unit {0})
push name v = update (λ s. record s { vars = record { name = name; value = v } ∷ s.vars })

-- Pop the stack to a height.
unfoldable pub pop_to : ℕ → List Variable → List Variable
pop_to mark vars = drop (length vars - mark) vars

unfoldable pub pop : ℕ → M (Unit {0})
unfolding pop_to
pop mark = update (λ s. record s { vars = pop_to mark s.vars })

-- The last declared variable of the name, from the top.
unfoldable pub find_var : Text → List Variable → Option Value
unfolding text_eq
find_var name [] = none
find_var name (x ∷ vars) = if text_eq x.name name then some x.value else find_var name vars

unfoldable pub replace_var : Text → Value → List Variable → List Variable
unfolding text_eq
replace_var name v [] = []
replace_var name v (x ∷ vars) =
    if text_eq x.name name
    then record { name = x.name; value = v } ∷ vars
    else x ∷ replace_var name v vars

unfoldable pub undefined_variable : Text → Text
unfolding codes
undefined_variable name = codes "undefined variable: " ++ name

-- setVar
unfoldable pub set_var : Host → Text → Value → M (Unit {0})
set_var h name v = do
  s ← inner
  on_option (find_var name s.vars) (errorf h (undefined_variable name))
      λ old. update (λ t. record t { vars = replace_var name v t.vars })

-- varValue
unfoldable pub var_value : Host → Text → M Value
var_value h name = do
  s ← inner
  on_option (find_var name s.vars) (errorf h (undefined_variable name)) pure

-- The variable at a depth below the top gets a value; none if the stack is too short.
unfoldable pub replace_at : ℕ → Value → List Variable → Option (List Variable)
replace_at i v [] = none
replace_at zero v (x ∷ vars) = some (record { name = x.name; value = v } ∷ vars)
replace_at (suc i) v (x ∷ vars) = elim (replace_at i v vars) [
  | none ↦ none
  | some rest ↦ some (x ∷ rest)
]

-- setTopVar: the top-nth variable
unfoldable pub set_top_var : ℕ → Value → M (Unit {0})
unfolding codes
set_top_var n v = do
  s ← inner
  on_option (replace_at (n - 1) v s.vars) (raise (runtime_error (codes "index out of range")))
      λ vars. update (λ t. record t { vars = vars })

unfoldable pub leave_popping : {A : Type 0} → ℕ → Result A × World → Result A × World
unfolding pop_to
leave_popping mark (r, w) =
    (r, record w { inner = record w.inner { vars = pop_to mark w.inner.vars } })

-- `defer s.pop(s.mark())`
unfoldable pub popping : {A : Type 0} → M A → M A
unfolding leave_popping
popping m w = leave_popping (length w.inner.vars) (m w)

abbrev pub stop_break : Result (Unit {0}) → Result (Unit {0})
stop_break (panics walk_break) = ok tt
stop_break r = r

abbrev pub stop_continue : Result (Unit {0}) → Result (Unit {0})
stop_continue (panics walk_continue) = ok tt
stop_continue r = r

-- The handlers of `{{break}}` and `{{continue}}`.
unfoldable pub catch_break : M (Unit {0}) → M (Unit {0})
catch_break m w = (stop_break (m w).0, (m w).1)

unfoldable pub catch_continue : M (Unit {0}) → M (Unit {0})
catch_continue m w = (stop_continue (m w).0, (m w).1)
