-- ===== src/Origin.antt =====
-- Which source supplied each effective value, tools/helmprov/cmd/helmprov/origin.go.
pub mod Tables
pub mod Marks
pub mod Layers
pub mod Canon
pub mod Merge
pub mod Compute
pub mod Check
pub mod Replicated
pub mod Known
pub mod Layered
pub mod Sources
pub mod Named
pub mod Source
pub mod Sourced
pub mod Texts
pub mod Stages
