-- ===== src/Tools.antt =====
-- src/dayu_agent/tools: the permission-checked tool registry.
pub mod Defs
pub mod Names
pub mod Registry
pub mod Safety
