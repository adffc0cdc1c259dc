-- ===== src/Memory/Contract.antt =====
-- What the methods of the in-memory store promise to their callers.
pub mod Idempotency
pub mod Exclusion
pub mod Atomicity
pub mod Turns
pub mod Cancellation
pub mod Streams
