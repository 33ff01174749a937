-- ===== src/Engine.antt =====
-- The engine that renders the templates of a chart, tools/helmprov/engine/engine.go.
pub mod Order
pub mod Render
pub mod Distinct
pub mod Filed
pub mod Rendered
pub mod Kept
pub mod Keys
pub mod Complete
pub mod Scoping
pub mod Paths
pub mod Collect
pub mod Collected
pub mod Symbolic
pub mod Placed
pub mod Iteration
pub mod Errors
pub mod ErrorLaws
pub mod Messages
pub mod Warnings
pub mod ParseErrors
pub mod Prepare
pub mod Prepared
pub mod Unordered
pub mod Answers
pub mod Traces
