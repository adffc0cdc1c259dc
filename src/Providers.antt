-- ===== src/Providers.antt =====
-- The providers, and what the supervisor makes of their streams.
pub mod Contract
pub mod Fake
pub mod Openai
pub mod Streams
pub mod Consuming
