-- ===== src/Database.antt =====
-- src/dayu_agent/database: the store over a relational database.
pub mod Models
pub mod Engine
pub mod Transactions
pub mod Outcomes
pub mod Numbering
pub mod Statements
pub mod Recording
pub mod Commits
pub mod Replays
pub mod Entering
pub mod Ownership
pub mod Transcripts
pub mod Reservations
pub mod Lifecycle
pub mod Sweeps
pub mod Simulation
pub mod Updates
pub mod Refinement
