-- ===== src/Execution.antt =====
-- The components of platform/consensus/execution.
pub mod SystemInfo
pub mod Executor
pub mod DuplicateManager
