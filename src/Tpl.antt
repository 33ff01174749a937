-- ===== src/Tpl.antt =====
-- The template executor with provenance, tools/helmprov/tpl: its values, its state and its steps.
pub mod Typed
pub mod Sym
pub mod Syntax
pub mod Value
pub mod World
pub mod Prov
pub mod Brackets
pub mod Calls
pub mod Call
pub mod Run
pub mod Logic
pub mod Fuel
pub mod Silent
pub mod Tiling
pub mod Walk
pub mod Eval
pub mod State
pub mod Host
pub mod Record
pub mod Finish
pub mod Balance
pub mod Explore
pub mod Variables
pub mod Placeholders
pub mod Halting
pub mod Filing
pub mod Noting
