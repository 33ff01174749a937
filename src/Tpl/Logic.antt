-- ===== src/Tpl/Logic.antt =====
-- A program logic for executions: two relations between computations, `Evals` for evaluation and
-- `Walks` for walking, that every step of the model keeps. The children show that whatever keeps
-- the steps keeps the whole executor; an instance is a property of every render.
mod Calls
mod Call
mod Eval
mod Walk
mod Defs
mod Rules
mod Size
mod Jumps
unfoldable pub use Size.{node_size, opt_pipe_size}
pub use Size.{node_positive, pipe_positive}
pub use Defs.{Logic, Uniform, CallsRelated, JumpsRelated, IsMild}
pub use Rules.{evals_errorf}
pub use Walk.{step-related}
pub use Jumps.{
  AllRelated, walks_run_template, evals_execute_template, step-all, calls-related, execute-related,
}
