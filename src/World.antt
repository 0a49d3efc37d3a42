-- ===== src/World.antt =====
-- The state of each character's session (src/lich_agent_bridge/world_state.py).
pub mod Types
pub mod Fields
pub mod State
pub mod Watch
pub mod Queue
pub mod Waiting
pub mod Timeline
pub mod Admission
pub mod History
mod Examples
