-- ===== src/Tpl/Brackets.antt =====
-- The steps of an execution that enter a part of it and leave it again, with what provenance does on
-- both sides: tools/helmprov/tpl/exec.go and prov.go.
use cartograph_nvim.Base.{
  ℕ, ◌+◌, ◌-◌, Text, codes, text_eq, length, replace_all_empty, Bool, true, false, not, ◌&&◌, ◌||◌,
  Option, none, some, List, [], ◌∷◌, ◌++◌, if◌then◌else◌, ltb, ◌==◌,
}
use cartograph_nvim.Tpl.Syntax.{Node, Pipe, pipe_node}
use cartograph_nvim.Tpl.Sym.{open_mark, close_mark}
use cartograph_nvim.Tpl.Value.{Value}
use cartograph_nvim.Tpl.Record.{Span, File, Explored, Recorder}
use cartograph_nvim.Tpl.Host.{Host, Template}
use cartograph_nvim.Tpl.World.{
  Inner, World, Trace, exec_error, runtime_error, walk_break, walk_continue, out_of_fuel, Result,
  ok, panics, M,
}
use cartograph_nvim.Tpl.Prov.{loc, is_symbolic}

-- Write to the current writer; a counting writer counts the bytes.
unfoldable pub write : Text → World → World
write t w = record w {
  out = w.out ++ t;
  trace = record w.trace {
    count = elim w.trace.count [ none ↦ none | some n ↦ some (n + length t) ];
  };
}

-- The byte count at which the next write starts.
unfoldable pub counted : Trace → ℕ
counted t = elim t.count [ none ↦ 0 | some n ↦ n ]

-- Append a span, where bytes are counted.
unfoldable pub close_span : Span → World → World
unfolding counted
close_span sp w = elim w.trace.count [
  | none ↦ w
  | some n ↦ record w {
    trace = record w.trace { spans = w.trace.spans ++ record sp { stop = n } ∷ [] };
  }
]

unfoldable pub new_span : Host → Node → Text → World → Span
unfolding counted
new_span h n kind w = record {
  start = counted w.trace;
  stop = 0;
  loc = loc h w.inner (some n);
  kind = kind;
  values = [];
}

-- A text node: its bytes, and their span.
unfoldable pub walk_text : Host → Node → Text → M (Unit {0})
unfolding write close_span new_span codes
walk_text h n text w = (ok tt, close_span (new_span h n (codes "text") w) (write text w))

-- An action is the current span while it is evaluated.
unfoldable pub open_action : Host → Node → World → World
unfolding new_span codes
open_action h n w = elim w.trace.count [
  | none ↦ w
  | some k ↦ record w { trace = record w.trace { cur = some (new_span h n (codes "action") w) } }
]

unfoldable pub action_span : Host → Node → World → Option Span → Span
unfolding new_span codes
action_span h n w none = new_span h n (codes "action") w
action_span h n w (some s) = s

-- It prints its text, and the span is closed, with the reads that it got. If the evaluation
-- panicked, the span is dropped and stays current.
unfoldable pub close_action : Host → Node → World → Result Text × World → Result (Unit {0}) × World
unfolding write close_span action_span codes
close_action h n w (panics p, w') = (panics p, w')
close_action h n w (ok text, w') =
    let printed = write text w' in
    let closed = close_span (action_span h n w w'.trace.cur) printed in
    (
      ok tt,
      elim w.trace.count [
        | none ↦ printed
        | some k ↦ record closed { trace = record closed.trace { cur = w.trace.cur } }
      ],
    )

-- An action node, which `m` evaluates to the text that it prints.
unfoldable pub walk_action : Host → Node → M Text → M (Unit {0})
unfolding open_action close_action
walk_action h n m w = close_action h n w (m (open_action h n w))

-- `execute`: a new state over the same group of templates, writing to a buffer of its own. It is
-- counted if it is the outermost execution under a recorder.
unfoldable pub enter : Template → Value → World → World
unfolding codes
enter t v w = record {
  inner = record w.inner {
    tmpl = t;
    node = none;
    vars = record { name = codes "$"; value = v } ∷ [];
    depth = 0;
    sym_hit = false;
  };
  out = [];
  trace = elim w.trace.rec [
    | none ↦ record { count = none; spans = []; cur = none; rec = none }
    | some r ↦ record {
      count = if r.depth == 0 then some 0 else none;
      spans = [];
      cur = none;
      rec = some (record r { depth = r.depth + 1 });
    }
  ];
}

unfoldable pub set_file : Text → List Span → List File → List File
unfolding text_eq
set_file name spans [] = record { name = name; spans = spans } ∷ []
set_file name spans (f ∷ fs) =
    if text_eq f.name name
    then record { name = name; spans = spans } ∷ fs
    else f ∷ set_file name spans fs

-- The recorder when an execution is left: one level up, and the spans of a top-level one filed.
unfoldable pub leave_recorder : Text → World → Recorder → Recorder
unfolding set_file
leave_recorder name w r =
    let up = record r { depth = r.depth - 1 } in
    elim w.trace.count [
      | none ↦ up
      | some n ↦ record up { files = set_file name w.trace.spans r.files }
    ]

unfoldable pub leave : Template → World → World → World
unfolding leave_recorder
leave t w w' = record {
  inner = record w.inner { included = w'.inner.included };
  out = w.out;
  trace = record w.trace {
    rec = elim w'.trace.rec [ none ↦ none | some r ↦ some (leave_recorder t.name w' r) ];
  };
}

-- errRecover: the error of an execution is its result; any other panic goes on.
abbrev pub recover_error : Text → Result (Unit {0}) → Result (Text × Option Text)
recover_error buf (ok _) = ok (buf, none)
recover_error buf (panics (exec_error name e)) = ok (buf, some e)
recover_error buf (panics p) = panics p

unfoldable pub execute_with : Template → Value → M (Unit {0}) → M (Text × Option Text)
unfolding enter leave
execute_with t v m w = let (r, w') = m (enter t v w) in (recover_error w'.out r, leave t w w')

-- `{{template}}`: a copy of the state, one level deeper, with `$` its only variable. It shares the
-- writer, the file and the recorder; the caller's own fields are as before afterwards.
unfoldable pub enter_invoked : Template → Value → World → World
unfolding codes
enter_invoked t v w = record w {
  inner = record w.inner {
    tmpl = t;
    depth = w.inner.depth + 1;
    vars = record { name = codes "$"; value = v } ∷ [];
  };
}

unfoldable pub leave_invoked : World → Result (Unit {0}) × World → Result (Unit {0}) × World
leave_invoked w (r, w') = (
  r,
  record w' {
    inner = record w.inner { included = w'.inner.included };
    trace = record w'.trace { cur = w.trace.cur };
  },
)

unfoldable pub invoke_with : Template → Value → M (Unit {0}) → M (Unit {0})
unfolding enter_invoked leave_invoked
invoke_with t v m w = leave_invoked w (m (enter_invoked t v w))

abbrev pub max_guards : ℕ
max_guards = 16

unfoldable pub guard_text : Host → Inner → Node → Text → Pipe → Text → Text
unfolding codes
guard_text h s n kind pipe which =
    loc h s (some n)
    ++ (codes " "
        ++ (kind
            ++ (codes " "
                ++ (h.node_string (pipe_node pipe) ++ (codes " (" ++ (which ++ codes ")"))))))

unfoldable pub mem_guard : Text → List Text → Bool
unfolding text_eq
mem_guard g [] = false
mem_guard g (x ∷ xs) = text_eq x g || mem_guard g xs

-- the error of a failed arm; a break or a continue that leaves the arm is none
unfoldable pub arm_error : Result (Unit {0}) → Option Text
unfolding codes
arm_error (ok _) = none
arm_error (panics walk_break) = none
arm_error (panics walk_continue) = none
arm_error (panics (exec_error name e)) = some e
arm_error (panics (runtime_error e)) = some e
arm_error (panics out_of_fuel) = some (codes "out of fuel")

unfoldable pub explored_arm : Host → Text → Result (Unit {0}) → World → Explored
unfolding arm_error codes
explored_arm h guard r w =
    let text = replace_all_empty w.out (codes "<no value>") in
    elim (arm_error r) [
      | none ↦ record { guard = guard; text = text; loc = []; err = [] }
      | some e ↦ record { guard = guard; text = text; loc = loc h w.inner w.inner.node; err = e }
    ]

-- The world in which an untaken arm runs: a buffer of its own, no counter, its guard pushed.
unfoldable pub enter_arm : Text → Recorder → World → World
enter_arm guard r w = record w {
  out = [];
  trace = record w.trace {
    count = none;
    cur = none;
    rec = some (record r { guards = guard ∷ r.guards });
  };
}

abbrev pub pop_guard : List Text → List Text
pop_guard [] = []
pop_guard (g ∷ gs) = gs

-- The world after it: the arm noted, the guard popped, the variables, the writer and the node as
-- they were.
unfoldable pub leave_arm : Host → Text → Result (Unit {0}) → World → World → World
unfolding explored_arm
leave_arm h guard r w w' = record {
  inner = record w'.inner { vars = w.inner.vars; node = w.inner.node };
  out = w.out;
  trace = record {
    count = w.trace.count;
    spans = w'.trace.spans;
    cur = w.trace.cur;
    rec = elim w'.trace.rec [
      | none ↦ none
      | some q ↦ some (record q {
        explored = q.explored ++ explored_arm h guard r w' ∷ [];
        guards = pop_guard q.guards;
      })
    ];
  };
}

abbrev pub swallow : Result (Unit {0}) → Result (Unit {0})
swallow (panics out_of_fuel) = panics out_of_fuel
swallow _ = ok tt

-- Whether an arm is explored: not twice at once, and not below `max_guards` others.
unfoldable pub explores : Text → Recorder → Bool
unfolding mem_guard
explores guard r =
    r.branches && (ltb (length r.guards) max_guards && not (mem_guard guard r.guards))

unfoldable pub finish_arm :
    Host → Text → World → Result (Unit {0}) × World → Result (Unit {0}) × World
unfolding leave_arm
finish_arm h guard w (r, w') = (swallow r, leave_arm h guard r w w')

-- `explore` of an arm that is there, under a recorder.
unfoldable pub explore_under : Host → Text → Recorder → M (Unit {0}) → M (Unit {0})
unfolding enter_arm finish_arm explores
explore_under h guard r m w =
    let run = finish_arm h guard w (m (enter_arm guard r w)) in
    if explores guard r then run else (ok tt, w)

-- With no recorder nothing is explored.
unfoldable pub explore_maybe : Host → Text → Option Recorder → M (Unit {0}) → M (Unit {0})
unfolding explore_under
explore_maybe h guard none m w = (ok tt, w)
explore_maybe h guard (some r) m w = explore_under h guard r m w

unfoldable pub explore_with : Host → Node → Text → Pipe → Text → M (Unit {0}) → M (Unit {0})
unfolding guard_text explore_maybe
explore_with h n kind pipe which m w =
    explore_maybe h (guard_text h w.inner n kind pipe which) w.trace.rec m w

-- the marker that a symbolic render prints for an action that failed
abbrev pub error_mark : Text
error_mark = open_mark ++ (codes "error" ++ close_mark)

unfoldable pub guard_error : Host → Node → Result (Unit {0}) × World → Result (Unit {0}) × World
unfolding write codes
guard_error h n (panics (exec_error name e), w) = (
  ok tt,
  write error_mark (record w {
    trace = record w.trace {
      rec = elim w.trace.rec [
        | none ↦ none
        | some r ↦ some (record r {
          explored =
              r.explored
              ++ record {
                guard = codes "symbolic " ++ loc h w.inner (some n);
                text = [];
                loc = loc h w.inner w.inner.node;
                err = e;
              }
                ∷ [];
        })
      ];
    };
  }),
)
guard_error h n (r, w) = (r, w)

unfoldable pub unguarded : Trace → Bool
unguarded t = elim t.rec [ none ↦ true | some r ↦ length r.guards == 0 ]

-- symGuard
unfoldable pub sym_guard : Host → Node → M (Unit {0}) → M (Unit {0})
unfolding guard_error unguarded
sym_guard h n m w = if is_symbolic w.trace && unguarded w.trace then guard_error h n (m w) else m w
