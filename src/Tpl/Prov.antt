-- ===== src/Tpl/Prov.antt =====
-- The recording hooks of an execution, tools/helmprov/tpl/prov.go and their calls in exec.go.
use cartograph_nvim.Base.{
  ℕ, ◌+◌, ◌-◌, Text, codes, text_eq, length, take, join, Bool, true, false, not, ◌&&◌, ◌||◌, Option,
  none, some, List, [], ◌∷◌, ◌++◌, if◌then◌else◌, ltb, ◌==◌, is_some,
}
use cartograph_nvim.Base.Int.{pos}
use cartograph_nvim.Tpl.Syntax.{Node, Pipe, pipe_node}
use cartograph_nvim.Tpl.Sym.{show_sym}
use cartograph_nvim.Tpl.Value.{
  Value, invalid, bool, int, uint, float, complex, str, map_of, slice, nil_pointer, pointer,
  Entries, keys, map_index, count_values, indirect_interface, sym_of,
}
use cartograph_nvim.Tpl.Record.{Span, Read, Arm, Dot, Recorder}
use cartograph_nvim.Tpl.Host.{Host, lookup_key, set_key}
use cartograph_nvim.Tpl.World.{Inner, World, Trace, ok, M, on_option, pure}

-- `loc` of a node in the template that runs; the empty text where there is no node
unfoldable pub loc : Host → Inner → Option Node → Text
loc h s n = elim n [ none ↦ [] | some k ↦ (h.error_context s.tmpl.name k).0 ]

-- A change of the recorder alone; with none set, nothing happens.
unfoldable pub record_with : (World → Recorder → Recorder) → M (Unit {0})
record_with f w = (
  ok tt,
  elim w.trace.rec [
    | none ↦ w
    | some r ↦ record w { trace = record w.trace { rec = some (f w r) } }
  ],
)

unfoldable pub is_symbolic : Trace → Bool
is_symbolic t = elim t.rec [ none ↦ false | some r ↦ r.symbolic ]

unfoldable pub is_exploring : Trace → Bool
is_exploring t = elim t.rec [ none ↦ false | some r ↦ r.branches ]

-- symbolic(), and `Rec != nil && Rec.Branches`
unfoldable pub symbolic : M Bool
symbolic w = (ok (is_symbolic w.trace), w)

unfoldable pub exploring : M Bool
exploring w = (ok (is_exploring w.trace), w)

-- The read that a recorder notes: untaken, with its guard, inside an arm that is being explored.
unfoldable pub read_of : Text → Text → Recorder → Read
read_of path place r = elim r.guards [
  | [] ↦ record { path = path; loc = place; untaken = false; guard = [] }
  | g ∷ gs ↦ record { path = path; loc = place; untaken = true; guard = g }
]

unfoldable pub add_value : Text → Option Span → Option Span
add_value p none = none
add_value p (some sp) = some (record sp { values = sp.values ++ p ∷ [] })

-- recordRead
unfoldable pub record_read : Host → Node → List Text → M (Unit {0})
unfolding codes join
record_read h n [] w = (ok tt, w)
record_read h n (x ∷ xs) w = (
  ok tt,
  elim w.trace.rec [
    | none ↦ w
    | some r ↦
        let p = join (x ∷ xs) (codes ".") in
        let note = read_of p (loc h w.inner (some n)) r in
        record w {
          trace = record w.trace {
            rec = some (record r { reads = r.reads ++ note ∷ [] });
            cur = add_value p w.trace.cur;
          };
        }
  ],
)

-- recordSym: a placeholder that is a path is a read of it
unfoldable pub record_sym : Host → Node → Value → M (Unit {0})
unfolding text_eq
record_sym h n v = on_option (sym_of v) (pure tt) λ y.
    if text_eq y.expr [] && not (text_eq y.path []) then record_read h n (y.path ∷ []) else pure tt

-- U+2026
abbrev pub ellipsis : Text
ellipsis = 0xE2 ∷ 0x80 ∷ 0xA6 ∷ []

-- a text of more than 60 bytes is cut
unfoldable pub clip : Text → Text
clip t = if ltb 60 (length t) then take 60 t ++ ellipsis else t

abbrev pub show_number : Host → ℕ → Text
show_number h n = h.show_value (int (pos n))

unfoldable pub show_kind : Host → Value → Text
unfolding codes clip keys count_values
show_kind h invalid = codes "nil"
show_kind h (bool b) = codes "bool:" ++ h.show_value (bool b)
show_kind h (str s) = codes "str:" ++ clip s
show_kind h (int n) = codes "number:" ++ h.show_value (int n)
show_kind h (uint n) = codes "number:" ++ h.show_value (uint n)
show_kind h (float n) = codes "number:" ++ h.show_value (float n)
show_kind h (map_of es) = codes "map(" ++ (show_number h (length (keys es)) ++ codes ")")
show_kind h (slice vs) = codes "list(" ++ (show_number h (count_values vs) ++ codes ")")
show_kind h (complex z) = codes "complex128"
show_kind h (pointer v) = codes "ptr"
show_kind h (nil_pointer t) = codes "ptr"
show_kind h _ = codes "struct"

-- condText: what a condition or a range evaluated to
unfoldable pub cond_text : Host → Value → Text
unfolding show_kind
cond_text h v = elim (sym_of v) [ some y ↦ show_sym y | none ↦ show_kind h (indirect_interface v) ]

-- at most four keys, and how many more there are
unfoldable pub more_keys : Host → List Text → Text
unfolding codes
more_keys h ks =
    if ltb 4 (length ks)
    then codes ", " ++ (ellipsis ++ (show_number h (length ks - 4) ++ codes " more"))
    else []

unfoldable pub show_keys : Host → Entries → Text
unfolding codes keys map_index more_keys
show_keys h es =
    if is_some (map_index es (codes "Release")) && is_some (map_index es (codes "Values"))
    then codes "$ (the root: .Values .Release .Chart " ++ (ellipsis ++ codes ")")
    else codes "{" ++ (join (take 4 (keys es)) (codes ", ") ++ (more_keys h (keys es) ++ codes "}"))

unfoldable pub show_dot : Host → Value → Value → Text
unfolding show_keys
show_dot h v (map_of es) = show_keys h es
show_dot h v _ = cond_text h v

-- dotText: `.`, briefly
unfoldable pub dot_text : Host → Value → Text
unfolding show_dot codes
dot_text h v = elim (sym_of v) [ some y ↦ show_sym y | none ↦ show_dot h v (indirect_interface v) ]

unfoldable pub mem_text : Text → List Text → Bool
unfolding text_eq
mem_text t [] = false
mem_text t (x ∷ xs) = text_eq x t || mem_text t xs

-- one more execution saw the text; at most five distinct texts are kept
unfoldable pub see_dot : Text → Option Dot → Dot
unfolding mem_text
see_dot t none = record { values = t ∷ []; n = 1 }
see_dot t (some d) =
    let values =
      if mem_text t d.values || not (ltb (length d.values) 5)
      then d.values
      else d.values ++ t ∷ [] in
    record { values = values; n = d.n + 1 }

-- recordDot
unfoldable pub record_dot : Host → Node → Value → M (Unit {0})
record_dot h n dot = record_with λ w r.
    let l = loc h w.inner (some n) in
    let seen = record r {
      dots = set_key l (see_dot (dot_text h dot) (lookup_key l r.dots)) r.dots;
    } in
    if r.dots_on && (length r.guards == 0) then seen else r

-- arm
unfoldable pub arm : Host → Node → Text → Pipe → Text → Bool → Text → M (Unit {0})
arm h n kind pipe taken has_else value = record_with λ w r.
    let note : Arm = record {
      loc = loc h w.inner (some n);
      kind = kind;
      pipe = h.node_string (pipe_node pipe);
      taken = taken;
      has_else = has_else;
      value = value;
      untaken = ltb 0 (length r.guards);
    } in
    if r.branches then record r { arms = r.arms ++ note ∷ [] } else r
