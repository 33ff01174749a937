-- ===== src/Tpl/Logic/Call.antt =====
-- Function calls keep the logic, if the calls below them do.
use cartograph_nvim.Base.{ℕ, ◌≤◌, arith, Text, Bool, Option, List, [], ◌∷◌}
use cartograph_nvim.Tpl.Syntax.{Node, Nodes, nil, cons}
use cartograph_nvim.Tpl.Value.{Typ, Value, str}
use cartograph_nvim.Tpl.Host.{Answer, value, error, Body, include, tpl, native, Function, Host}
use cartograph_nvim.Tpl.World.{M}
use cartograph_nvim.Tpl.Prov.{record_sym}
use cartograph_nvim.Tpl.Calls.{Calls, tail}
use cartograph_nvim.Tpl.Call.{
  sym_call, eval_args, add_final, and_or, eval_call, include_args, run_body, finish_call, call_with,
  ask_sym, sym_or_call, ordinary_call,
}
use cartograph_nvim.Tpl.Logic.Defs.{Logic, CallsRelated, JumpsRelated}
use cartograph_nvim.Tpl.Logic.Size.{node_size, nodes_size}
use cartograph_nvim.Tpl.Logic.Rules.{evals_pure, evals_safe, eval_rules}
use cartograph_nvim.Tpl.Logic.Calls.{evals_validate}

module _ (h : Host) (l : Logic h) where
  open l use {Evals}

  pub evals_record_sym :
      (n : Node) (v : Value) → Evals (Unit {0}) (record_sym h n v) (record_sym h n v)
  unfolding record_sym
  evals_record_sym n v = search eval_rules

  pub evals_sym_call :
      (name : Text) (b : Bool) (n : Node) (argv : List Value) (hit : Bool) (final : Value)
      → Evals
          (Option Value)
          (sym_call h name b n argv hit final)
          (sym_call h name b n argv hit final)
  unfolding sym_call
  evals_sym_call name b n argv hit final = search (eval_rules, evals_record_sym)

pub cons_fits :
    (n : Node) (ns : Nodes) (d : ℕ)
    → nodes_size (cons n ns) ≤ d
    → (node_size n ≤ d) × (nodes_size ns ≤ d)
unfolding nodes_size
cons_fits n ns d s = (omega arith, omega arith)

module _ (h : Host) (l : Logic h) (d : ℕ) (c c' : Calls) (rel : CallsRelated h l d c c')
    (jump : JumpsRelated h l d c c') where
  open l use {Evals}

  evals_include_args :
      (argv : List Value) → Evals Answer (include_args h c argv) (include_args h c' argv)
  unfolding include_args
  evals_include_args (str name ∷ v ∷ []) = jump.include name _
  evals_include_args _ = evals_pure h l _ _

  evals_body :
      (b : Body) (argv : List Value) → Evals Answer (run_body h c b argv) (run_body h c' b argv)
  unfolding run_body
  evals_body include argv = evals_include_args argv
  evals_body tpl argv = jump.tpl argv
  evals_body (native f) argv = evals_pure h l _ _

  evals_args :
      (dot : Value) (ts : List Typ) (rest : Option Typ) (ns : Nodes)
      → nodes_size ns ≤ d
      → Evals (List Value) (eval_args h c dot ts rest ns) (eval_args h c' dot ts rest ns)
  unfolding eval_args
  evals_args dot ts rest nil s = evals_pure h l _ _
  evals_args dot [] rest (cons n ns) s =
      let (p, q) = cons_fits n ns d s in
      search (eval_rules, rel.eval_arg, evals_args dot [] rest ns q)
  evals_args dot (t ∷ ts) rest (cons n ns) s =
      let (p, q) = cons_fits n ns d s in
      search (eval_rules, rel.eval_arg, evals_args dot ts rest ns q)

  evals_add_final :
      (final : Value) (t : Option Typ) (argv : List Value)
      → Evals (List Value) (add_final h c final t argv) (add_final h c' final t argv)
  unfolding add_final
  evals_add_final final t argv = search (eval_rules, evals_validate)

  evals_and_or :
      (is_or : Bool) (dot final last : Value) (ns : Nodes)
      → nodes_size ns ≤ d
      → Evals Value (and_or h c is_or dot final last ns) (and_or h c' is_or dot final last ns)
  unfolding and_or
  evals_and_or is_or dot final last nil s = search (eval_rules, evals_validate)
  evals_and_or is_or dot final last (cons n ns) s =
      let (p, q) = cons_fits n ns d s in
      search (eval_rules, rel.eval_arg, λ (v : Value). evals_and_or is_or dot final v ns q)

  evals_finish :
      (n : Node) (name : Text) (a : Answer)
      → Evals Value (finish_call h c n name a) (finish_call h c' n name a)
  unfolding finish_call
  evals_finish n name (value v) = evals_pure h l _ _
  evals_finish n name (error e) = search eval_rules

  evals_call_with :
      (f : Function) (b : Bool) (n : Node) (name : Text) (args : Nodes) (final : Value)
      (argv : List Value)
      → Evals Value
          (call_with h c f b n name args final argv)
          (call_with h c' f b n name args final argv)
  unfolding call_with
  evals_call_with f b n name args final argv =
      search (eval_rules, evals_safe, evals_body, evals_finish)

  evals_ask_sym :
      (call call' : M Value) (n : Node) (name : Text) (b : Bool) (argv : List Value) (final : Value)
      (saved : Bool)
      → Evals Value call call'
      → Evals Value
          (ask_sym h c call n name b argv final saved)
          (ask_sym h c' call' n name b argv final saved)
  unfolding ask_sym
  evals_ask_sym call call' n name b argv final saved p =
      search (eval_rules, evals_sym_call, p) depth 8

  evals_sym_or_call :
      (f : Function) (b : Bool) (n : Node) (name : Text) (args : Nodes) (final : Value)
      (saved : Bool) (argv : List Value)
      → Evals Value
          (sym_or_call h c f b n name args final saved argv)
          (sym_or_call h c' f b n name args final saved argv)
  unfolding sym_or_call
  evals_sym_or_call f b n name args final saved argv =
      search (eval_rules, evals_ask_sym, evals_call_with)

  evals_ordinary :
      (dot : Value) (f : Function) (b : Bool) (n : Node) (name : Text) (args : Nodes)
      (final : Value)
      → nodes_size args ≤ d
      → Evals Value
          (ordinary_call h c dot f b n name args final)
          (ordinary_call h c' dot f b n name args final)
  unfolding ordinary_call
  evals_ordinary dot f b n name args final s =
      search (eval_rules, evals_args, evals_add_final, evals_sym_or_call) depth 9

  pub evals_call :
      (dot : Value) (f : Function) (b : Bool) (n : Node) (name : Text) (args : Nodes)
      (final : Value)
      → nodes_size (tail args) ≤ d
      → Evals Value
          (eval_call h c dot f b n name args final)
          (eval_call h c' dot f b n name args final)
  unfolding eval_call
  evals_call dot f b n name args final s = search (eval_rules, evals_and_or, evals_ordinary)
