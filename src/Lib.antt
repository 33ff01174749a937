-- ===== src/Lib.antt =====
-- cartograph.nvim: the Helm renderer with provenance, tools/helmprov, and the oracle for values files.
--
-- cartograph asks tools/helmprov how a chart's manifests come from its templates and values. The Go
-- program is Helm's engine over a copy of Go's text/template whose executor has hooks: a recorder gets
-- one span of output for each text node and action, the `.Values` paths that each reads, the arms that
-- conditions took, the arms that they did not take (run into a buffer of their own), and what `.`
-- was. A symbolic render has placeholders in place of the values. A second part of the program tells
-- which values source supplied each effective value.
--
-- Base          texts as lists of bytes, and what the program uses of Go's package strings
-- Tpl           the executor, tools/helmprov/tpl
--   Syntax      the parse tree, parse/node.go
--   Value       the values and types that the executor tells apart, Host what it calls
--   Record      the recorder's types, Sym placeholders, Prov the recording hooks, prov.go
--   World       the state of an execution and the monad of its steps
--   State       the variable stack, the current node and errors, exec.go
--   Variables   assignments to variables, exec.go
--   Placeholders   the paths of placeholders, prov.go
--   Brackets    the steps that enter a part of an execution and leave it again: a text node, an
--               action, an execution, a template call, an untaken arm, a guarded node
--   Calls, Call, Eval, Walk   arguments and literals, function calls and include, pipelines and
--               fields, nodes, exec.go; include is from engine/engine.go
--   Run         Execute, over the three functions that call each other
--   Logic       relations between two computations that every step keeps, and the proof that then the
--               whole executor keeps them; Tiling, Silent, Balance, Fuel, Filing and Halting are its
--               uses
--   Typed       the values that validateType lets through
--   Explore     the exploration of an untaken arm, whatever the arm does
--   Noting      properties of the recorder that every hook keeps, and so every execution: Hooks, Arms
--               and Runs prove the latter, Taken and Bounds are its uses
--   Finish      the removal of `<no value>` and the shift of the spans, prov.go
-- Engine        the rendering of a chart's templates, engine/engine.go
--   Order, Iteration            sortTemplates and byPathLen
--   Messages                    required, fail, cleanupParseError and reformatExecErrorMsg; Warnings,
--                               Traces and ParseErrors are about what a user reads
--   Prepare                     initFunMap, render's first loop and its recovery, over an Engine;
--                               Prepared, Unordered and Answers are about the whole of render
--   Render                      render: its second loop, the values of each template, Finish on each
--                               text; Kept, what it keeps of the recorder
--   Filed, Rendered, Distinct   the spans on file after one template and after all of them
--   Keys, Complete              the templates that a rendering returns texts for
--   Paths                       Go's path.Join
--   Collect, Collected          allTemplates, recAllTpls, isTemplateValid and RenderWithContext
--   Scoping, Symbolic, Placed   the `.Values` of the charts in a symbolic render, from recAllTpls
--   Errors, ErrorLaws           parseTemplateExecErrorString, and the texts of errorf
-- Report        the document that the program prints, cmd/helmprov/main.go: Tiles and Slices are about
--               its files, Reads about what the untaken arms add to it
-- Origin        the source of each effective value, cmd/helmprov/origin.go
--   Tables      tables of values, taint, leaves and the reading of marks; Marks is about them
--   Layers      markChart, chartDefined and defined
--   Canon       canon, asMap and Helm's packages as the program calls them
--   Merge       userValues, Compute computeOrigins, Stages how an answer of it is reached
--   Check, Replicated           the self-check and what an answer stands on
--   Source                      the sources by their ids, with the paths that each sets
--   Known, Sources, Layered     the leaves recorded for layers
--   Named, Texts, Sourced       the layers that marks name
-- Oracle        the values of a file as Helm's own loader reads them, tools/oracles/helm_values/main.go;
--               Lossless and Unordered are about its canonical form, Answered about its answers
-- Tests         a sample chart and the theorems at concrete inputs
--
-- An execution is a function from a world to a result and a world. The result is a value or a panic;
-- the panics are Go's (an execution error, a runtime error, break and continue) and `out_of_fuel`,
-- which is the model's own and which no handler recovers. What was written before a panic stays
-- written. The recorder, which the program keeps in a global, is a part of the world. The handlers
-- take the functions walk, eval_pipeline and eval_arg as an argument; Run ties the knot, a level of
-- fuel for a call. The depth of template calls is bounded by `max_exec_depth` and that of includes by
-- `recursion_max_nums`, as in the program, so fuel is a bound on the depth of calls only;
-- Tpl.Halting computes from the templates a fuel that is enough, Engine.Answers one for a whole render.
--
-- Parameters of an engine (Engine/Prepare.antt): the parser and the functions of Helm's map.
-- Parameters (Tpl/Host.antt): the positions of nodes and their printed form, Go's formatting of
-- values, assignability, methods and fields of structs, the builtins and the functions of a chart
-- other than include. One of them is the engine's tpl, which parses and executes a text: the host says
-- what it answers or that it does not return, and what such an execution records is left out. An error
-- at a location with a `%`, which errorf takes for a verb, has a text that the host gives. Parameters
-- of the origins (Origin/Canon.antt): the loading and parsing of charts, values files and --set
-- arguments, Helm's merge and its effective values, JSON and formatting.
--
-- Not modelled: the order of map keys (entries stand in key order), channels and iterator functions as
-- range operands, the addresses of values that reflect takes where it can (a value with a method on its
-- pointer), blanks at the ends of error traces other than those of ASCII, which errors an error wraps
-- (reformatExecErrorMsg takes their texts; a rendering's error is the text before it is reformatted),
-- the sharing of a chart's values between its templates and its parent's `.Subcharts` (each has a copy,
-- without the `Template` entry that a render puts into the shared map), the program's flags, and input
-- and output.
pub mod Base
pub mod Engine
pub mod Origin
pub mod Oracle
pub mod Tpl
pub mod Report
pub mod Tests
