-- ===== src/Runtime.antt =====
-- src/dayu_agent/runtime and src/dayu_agent/contracts: the values that the layers exchange.
pub mod Result
pub mod Session
pub mod State
pub mod Transitions
