-- ===== src/Actions.antt =====
-- The action broker (src/lich_agent_bridge/actions.py).
pub mod Types
pub mod Exec
pub mod Fields
pub mod Loop
pub mod Broker
pub mod Owned
pub mod Submit
pub mod Diagram
pub mod Ledger
pub mod Rules
pub mod Evolution
pub mod Reach
pub mod Session
pub mod Delivery
pub mod Waiting
pub mod Parsing
pub mod Requests
pub mod Reports
pub mod Switch
pub mod Replacement
pub mod Verdicts
pub mod Proposals
pub mod Sequences
mod Examples
