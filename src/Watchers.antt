-- ===== src/Watchers.antt =====
-- Alerts from snapshots (src/lich_agent_bridge/watchers.py).
pub mod Types
pub mod Names
pub mod Profiles
pub mod Conditions
pub mod Rules
pub mod Reducer
pub mod Transitions
pub mod Rulings
pub mod Passes
pub mod Alerts
pub mod Bounds
pub mod Unknown
mod Examples
