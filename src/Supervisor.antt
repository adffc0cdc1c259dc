-- ===== src/Supervisor.antt =====
-- src/dayu_agent/agents/supervisor.py: the workflow that owns runs, over the in-memory store.
pub mod Provider
pub mod Attempts
pub mod Bounds
pub mod Execution
pub mod Endings
pub mod Settlement
pub mod Work
pub mod Agent
pub mod Requests
pub mod Tasks
pub mod Reserved
pub mod Granted
pub mod Owners
pub mod Custody
pub mod Starts
pub mod Moves
pub mod Stages
pub mod Admission
pub mod Served
pub mod Commands
pub mod Answer
pub mod Spoken
pub mod Orderly
pub mod Answering
pub mod Halting
pub mod Recovery
pub mod Watch
pub mod Watching
pub mod Replay
