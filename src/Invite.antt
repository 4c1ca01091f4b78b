-- ===== src/Invite.antt =====
-- crates/intranet-invite: who waits for admission.
pub mod WaitingRoom
pub mod Waiting
pub mod Tests
