-- ===== src/Effects.antt =====
-- src/func_effect_visitor.rs: whether a function body has effects that are seen from outside.
-- `Body` has the entry point and `Detector` the visitor, whose walks are those of
-- crates/ruff_python_ast/src/visitor.rs. `Visible` describes a scope with no visitor.
pub mod Detector
pub mod Body
pub mod Visible
pub mod Adds
pub mod Correct
