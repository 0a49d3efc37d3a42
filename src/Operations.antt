-- ===== src/Operations.antt =====
-- The operations of src/lich_agent_bridge/operations.py.
pub mod Types
pub mod Registry
pub mod Acts
pub mod Weights
pub mod Logs
pub mod Ownership
pub mod Reached
pub mod Host
pub mod Monad
pub mod Steps
pub mod Objects
pub mod Items
pub mod Execution
pub mod Direct
pub mod Scripts
pub mod Readiness
pub mod Handlers
pub mod Sound
pub mod Examples
pub mod Submissions
pub mod Returned
pub mod Fates
