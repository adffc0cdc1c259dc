-- ===== src/Memory.antt =====
-- src/dayu_agent/memory/store.py: the in-memory RuntimeStore.
pub mod Store
pub mod Sessions
pub mod Runs
pub mod Lifecycle
pub mod Maintenance
pub mod Cases
pub mod Entries
pub mod Invariant
pub mod Interrupts
pub mod Pruning
pub mod Calls
pub mod Contract
