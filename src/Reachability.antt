-- ===== src/Reachability.antt =====
-- src/reachability.rs: which conditions have a value that mypy knows before it checks a file.
pub mod Truth
pub mod Literals
pub mod Version
pub mod Platform
pub mod Infer
pub mod BoolOps
pub mod Comparison
pub mod Negation
pub mod Versions
pub mod Soundness
pub mod Total
