-- ===== src/Ledger.antt =====
-- crates/intranet-ledger: what the nodes of a network offer, and who is chosen to hold what.
pub mod Advertisement
pub mod Placement
pub mod Order
pub mod Entries
pub mod Genuine
pub mod Replicas
pub mod Reliability
pub mod Audit
pub mod Audited
pub mod Tests
