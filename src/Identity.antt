-- ===== src/Identity.antt =====
-- crates/intranet-identity: device certificates and their revocation (device.rs). Identities,
-- devices and networks are the 32-byte arrays of their keys and ids.
pub mod Device
use distributed_intranet.Base.{ℕ}

abbrev pub IdentityId : Type 0
IdentityId = ℕ

abbrev pub DeviceKey : Type 0
DeviceKey = ℕ

abbrev pub NetworkId : Type 0
NetworkId = ℕ
