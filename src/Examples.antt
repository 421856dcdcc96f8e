-- ===== src/Examples.antt =====
-- Runs of the code on small inputs.
mod Data
mod Conditions
mod Blocks
mod Effects
mod Bytes
mod Comments
mod Modules
mod Serialize
mod Files
