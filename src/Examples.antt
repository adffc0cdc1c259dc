-- ===== src/Examples.antt =====
-- Tests, and concrete inputs at which the results apply.
pub mod Scenes
pub mod Stores
pub mod Sweeps
pub mod Floats
pub mod Tasks
pub mod Agents
pub mod Answers
pub mod Generators
pub mod Registries
pub mod Databases
pub mod Rows
