-- ===== src/Tests.antt =====
-- Tests of the model on small inputs, and the theorems at concrete inputs.
mod Sample
mod Renders
mod Texts
mod Origins
mod Rendering
mod Charts
mod Errors
mod Oracles
