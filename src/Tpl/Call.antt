-- ===== src/Tpl/Call.antt =====
-- Function calls, tools/helmprov/tpl/exec.go (evalCall), symCall of prov.go, and the engine's
-- `include` (tools/helmprov/engine/engine.go).
use cartograph_nvim.Base.{
  ℕ, zero, suc, ◌+◌, ◌-◌, Text, codes, text_eq, length, Bool, false, not, ◌&&◌, ◌||◌, Option, none,
  some, List, [], ◌∷◌, ◌++◌, if◌then◌else◌, ltb, leb, ◌==◌, is_some,
}
use cartograph_nvim.Tpl.Syntax.{Node, Nodes, nil, cons}
use cartograph_nvim.Tpl.Sym.{Sym, inner as sym_inner, field}
use cartograph_nvim.Tpl.Value.{
  Typ, t_value, Value, invalid, str, sym, boxed, is_missing, is_true, indirect_interface, sym_of,
}
use cartograph_nvim.Tpl.Host.{
  Answer, value, error, Body, include, tpl, native, Function, Host, Template, lookup_template,
  lookup_key, set_key,
}
use cartograph_nvim.Tpl.World.{
  exec_error, runtime_error, walk_break, walk_continue, out_of_fuel, Result, ok, panics, M,
  on_option, pure, raise, ◌>>=◌, ◌>>◌, inner, update,
}
use cartograph_nvim.Tpl.State.{errorf, at}
use cartograph_nvim.Tpl.Prov.{show_number, symbolic, record_sym}
use cartograph_nvim.Tpl.Brackets.{mem_guard, execute_with}
use cartograph_nvim.Tpl.Calls.{Calls, tail, count_nodes, validate_type}

-- A reflect.Value result is unwrapped.
unfoldable pub unwrap : Value → Value
unwrap (boxed v) = v
unwrap v = v

-- The type of the argument at an index, among the fixed parameters or the variadic one.
unfoldable pub param_at : List Typ → Option Typ → ℕ → Option Typ
param_at [] rest i = rest
param_at (t ∷ ts) rest zero = some t
param_at (t ∷ ts) rest (suc i) = param_at ts rest i

unfoldable pub trim_left : Text → Text
trim_left [] = []
trim_left (x ∷ s) = if x == b' ' || (leb 9 x && leb x 13) then trim_left s else x ∷ s

-- strings.TrimSpace of an ASCII text
unfoldable pub trim_right : Text → Text
trim_right [] = []
trim_right (x ∷ s) = elim (trim_right s) [
  | [] ↦ if x == b' ' || (leb 9 x && leb x 13) then [] else x ∷ []
  | y ∷ r ↦ x ∷ y ∷ r
]

-- The functions that take a placeholder in an interface{} slot and keep its marker.
unfoldable pub sym_pass : Text → Bool
unfolding codes mem_guard
sym_pass name = mem_guard name (
    codes "quote"
    ∷ codes "squote"
    ∷ codes "default"
    ∷ codes "toYaml"
    ∷ codes "toJson"
    ∷ codes "toPrettyJson"
    ∷ codes "mustToJson"
    ∷ codes "toRawJson"
    ∷ codes "printf"
    ∷ codes "print"
    ∷ codes "println"
    ∷ codes "required"
    ∷ codes "coalesce"
    ∷ codes "list"
    ∷ codes "dict"
    ∷ codes "include"
    ∷ [])

-- `index` of a placeholder: a text key is a segment, any other key an element.
unfoldable pub index_segment : Value → Text
unfolding codes
index_segment k = elim (indirect_interface (unwrap k)) [ str s ↦ s | _ ↦ codes "[]" ]

unfoldable pub extend_sym : Sym → List Value → Sym
unfolding index_segment
extend_sym y [] = y
extend_sym y (k ∷ ks) = extend_sym (field y (index_segment k)) ks

-- A call is not made if an argument is a placeholder that the function cannot take.
unfoldable pub any_sym : Bool → Text → List Value → Bool
unfolding sym_pass
any_sym b name [] = false
any_sym b name (a ∷ as_) = (is_some (sym_of a) && (b || not (sym_pass name))) || any_sym b name as_

-- The expression that stands for such a call; a pipeline stage keeps what was piped into it.
unfoldable pub call_expr : Host → Node → Value → Text
unfolding codes trim_left trim_right
call_expr h n final =
    let expr = trim_right (trim_left (h.node_string n)) in
    elim (sym_of final) [ none ↦ expr | some y ↦ sym_inner y ++ (codes " | " ++ expr) ]

unfoldable pub is_index : Bool → Text → List Value → Option (Sym × List Value)
unfolding codes text_eq
is_index b name [] = none
is_index b name (a ∷ ks) =
    if b && text_eq name (codes "index")
    then elim (sym_of a) [ none ↦ none | some y ↦ some (y, ks) ]
    else none

-- symCall of a symbolic render
unfoldable pub sym_call : Host → Text → Bool → Node → List Value → Bool → Value → M (Option Value)
unfolding any_sym call_expr is_index
sym_call h name b n argv hit final =
    on_option (is_index b name argv)
      (if hit || any_sym b name argv
        then pure (some (sym (record { path = []; expr = call_expr h n final })))
        else pure none)
      λ found. let v = sym (extend_sym found.0 found.1) in record_sym h n v >>= λ _. pure (some v)

abbrev pub recursion_max_nums : ℕ
recursion_max_nums = 1000

-- How often an include of a name runs already.
unfoldable pub included_count : Text → List (Text × ℕ) → ℕ
included_count name m = elim (lookup_key name m) [ none ↦ 0 | some n ↦ n ]

-- Go's safeCall: a panic of the called function is its error.
abbrev pub safe : Result Answer → Result Answer
safe (ok a) = ok a
safe (panics (exec_error name e)) = ok (error e)
safe (panics (runtime_error e)) = ok (error e)
safe (panics walk_break) = ok (error (codes "break"))
safe (panics walk_continue) = ok (error (codes "continue"))
safe (panics out_of_fuel) = panics out_of_fuel

unfoldable pub safe_call : M Answer → M Answer
safe_call m w = (safe (m w).0, (m w).1)

-- ExecuteTemplate of a name that is not there, of the template that the engine starts with
unfoldable pub no_template : Host → Text → Text
unfolding codes
no_template h name =
    codes "template: no template "
    ++ (h.quote name ++ (codes " associated with template " ++ h.quote (codes "gotpl")))

-- a call of `tpl`, as the host answers it; one that does not return ends as for lack of fuel
unfoldable pub tpl_fun : Host → List Value → M Answer
tpl_fun h argv = inner >>= λ s. on_option (h.tpl s.group.templates argv) (raise out_of_fuel) pure

module _ (h : Host) (c : Calls) where
  -- `execute` of a template: an incomplete one is an error
  unfoldable pub run_template : Template → Value → M (Unit {0})
  unfolding codes
  run_template t v =
      on_option t.root (errorf h (h.quote t.name ++ codes " is an incomplete or empty template"))
        (c.walk v)

  unfoldable pub execute : Template → Value → M (Text × Option Text)
  unfolding run_template
  execute t v = execute_with t v (run_template t v)

  unfoldable pub answer_of : Text × Option Text → Answer
  answer_of (buf, none) = value (str buf)
  answer_of (buf, some e) = error e

  -- ExecuteTemplate into a buffer
  unfoldable pub execute_named : Text → Value → M Answer
  unfolding execute answer_of no_template
  execute_named name v = do
    s ← inner
    on_option (lookup_template s.group.templates name) (pure (error (no_template h name)))
        λ t. execute t v >>= λ r. pure (answer_of r)

  unfoldable pub set_included : Text → ℕ → M (Unit {0})
  set_included name n = update (λ s. record s { included = set_key name n s.included })

  unfoldable pub leave_include : Text → M (Unit {0})
  unfolding included_count
  leave_include name =
      update
        (λ s. record s { included = set_key name (included_count name s.included - 1) s.included })

  -- includeFun
  unfoldable pub include_fun : Text → Value → M Answer
  unfolding execute_named set_included leave_include included_count codes
  include_fun name v = do
    s ← inner
    let n = included_count name s.included
    if ltb recursion_max_nums n
        then pure (
            error (
              codes "rendering template has a nested reference name: "
              ++ (name ++ codes ": unable to execute template")))
        else do set_included name (n + 1); a ← execute_named name v; leave_include name; pure a

  unfoldable pub include_args : List Value → M Answer
  unfolding include_fun codes
  include_args (str name ∷ v ∷ []) = include_fun name (indirect_interface v)
  include_args argv = pure (error (codes "reflect: Call with wrong arguments"))

  unfoldable pub run_body : Body → List Value → M Answer
  unfolding include_args tpl_fun
  run_body include argv = include_args argv
  run_body tpl argv = tpl_fun h argv
  run_body (native f) argv = pure (f argv)

  -- the arguments, each at the type of its parameter
  unfoldable pub eval_args : Value → List Typ → Option Typ → Nodes → M (List Value)
  eval_args dot ts rest nil = pure []
  eval_args dot [] rest (cons n ns) = do
    v ← c.eval_arg dot rest n
    vs ← eval_args dot [] rest ns
    pure (v ∷ vs)
  eval_args dot (t ∷ ts) rest (cons n ns) = do
    v ← c.eval_arg dot (some t) n
    vs ← eval_args dot ts rest ns
    pure (v ∷ vs)

  -- the value piped in is the last argument
  unfoldable pub add_final : Value → Option Typ → List Value → M (List Value)
  unfolding is_missing
  add_final final t argv =
      if is_missing final then pure argv else validate_type h final t >>= λ v. pure (argv ++ v ∷ [])

  -- the short circuit of the builtins `and` and `or`
  unfoldable pub and_or : Bool → Value → Value → Value → Nodes → M Value
  unfolding is_missing unwrap is_true
  and_or is_or dot final last nil =
      if is_missing final
      then pure last
      else validate_type h final (some t_value) >>= λ v. pure (unwrap v)
  and_or is_or dot final last (cons n ns) = do
    a ← c.eval_arg dot (some t_value) n
    let v = unwrap a
    let rest = and_or is_or dot final v ns
    let truth = is_true (indirect_interface v)
    if (truth && is_or) || (not truth && not is_or) then pure v else rest

  unfoldable pub finish_call : Node → Text → Answer → M Value
  unfolding unwrap codes
  finish_call n name (value v) = pure (unwrap v)
  finish_call n name (error e) = do
    at n
    errorf h (codes "error calling " ++ (name ++ (codes ": " ++ e)))

  -- the builtin `call` is given the name of its callee
  unfoldable pub callee_args : Bool → Text → Nodes → Value → List Value → List Value
  unfolding codes text_eq
  callee_args b name nil final argv =
      if b && text_eq name (codes "call") then str (h.show_value final) ∷ argv else argv
  callee_args b name (cons n ns) final argv =
      if b && text_eq name (codes "call") then str (h.node_string n) ∷ argv else argv

  -- the call itself, once its arguments are there
  unfoldable pub call_with : Function → Bool → Node → Text → Nodes → Value → List Value → M Value
  unfolding finish_call callee_args run_body
  call_with f b n name args final argv = do
    a ← safe_call (run_body f.body (callee_args b name args final argv))
    finish_call n name a

  unfoldable pub ask_sym : M Value → Node → Text → Bool → List Value → Value → Bool → M Value
  unfolding sym_call
  ask_sym call n name b argv final saved = do
    s ← inner
    update (λ t. record t { sym_hit = saved })
    r ← sym_call h name b n argv s.sym_hit final
    on_option r call pure

  -- a symbolic render asks `symCall` first
  unfoldable pub sym_or_call :
      Function → Bool → Node → Text → Nodes → Value → Bool → List Value → M Value
  unfolding call_with ask_sym
  sym_or_call f b n name args final saved argv = do
    is_sym ← symbolic
    let call = call_with f b n name args final argv
    let asked = ask_sym call n name b argv final saved
    if is_sym then asked else call

  abbrev pub is_and_or : Bool → Text → Bool
  is_and_or b name = b && (text_eq name (codes "and") || text_eq name (codes "or"))

  abbrev pub want : Text → Text → ℕ → ℕ → Text
  want name what n got =
      codes "wrong number of args for "
      ++ (name
          ++ (codes ": want "
              ++ (what ++ (show_number h n ++ (codes " got " ++ show_number h got)))))

  -- `given` arguments in the text of the call, `total` with the one piped in
  unfoldable pub arity_error : Function → Text → ℕ → ℕ → Option Text
  unfolding codes
  arity_error f name given total = elim f.variadic [
    | none ↦ if total == length f.params then none else some (want name [] (length f.params) total)
    | some t ↦
        if ltb total (length f.params)
        then some (want name (codes "at least ") (length f.params) given)
        else none
  ]

  abbrev pub call_fault : Option Text → Option Text → Option Text
  call_fault (some e) g = some e
  call_fault none g = g

  -- the arguments are evaluated, then the call is made
  unfoldable pub ordinary_call : Value → Function → Bool → Node → Text → Nodes → Value → M Value
  unfolding sym_or_call count_nodes param_at eval_args add_final
  ordinary_call dot f b n name args final = do
    s ← inner
    update (λ t. record t { sym_hit = false })
    argv ← eval_args dot f.params f.variadic args
    full ← add_final final (param_at f.params f.variadic (count_nodes args)) argv
    sym_or_call f b n name args final s.sym_hit full

  -- evalCall; `args` holds the function's own node first
  unfoldable pub eval_call : Value → Function → Bool → Node → Text → Nodes → Value → M Value
  unfolding arity_error ordinary_call count_nodes codes text_eq and_or
  eval_call dot f b n name args final =
      let given = count_nodes (tail args) in
      let total = if is_missing final then given else given + 1 in
      on_option (call_fault (arity_error f name given total) f.fault)
        (if is_and_or b name
          then and_or (text_eq name (codes "or")) dot final invalid (tail args)
          else ordinary_call dot f b n name (tail args) final)
        (errorf h)
