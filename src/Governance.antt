-- ===== src/Governance.antt =====
-- crates/intranet-governance: the policy engine of a network.
pub mod Capability
pub mod Policy
pub mod Error
pub mod Group
pub mod Vote
pub mod Entry
pub mod State
pub mod Log
pub mod Wire
