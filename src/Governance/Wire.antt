-- ===== src/Governance/Wire.antt =====
-- crates/intranet-governance/src/wire.rs: entries and sync messages as bytes. Here are its errors and
-- the readers of keys and capabilities; the children have the larger values.
pub mod Policy
pub mod Votes
pub mod Body
pub mod Entry
pub mod Sync
pub mod Values
pub mod PolicyValues
pub mod VoteValues
pub mod Bodies
pub mod RoundTrip
pub mod Signed
pub mod SyncRoundTrip
pub mod Authentic
pub mod Ballots
pub mod BallotRoundTrip
pub mod Tests
use distributed_intranet.Base.{ℕ, ◌*◌, Bool, Option, List}
use distributed_intranet.Base.Tests.{◌==◌, if◌then◌else◌}
use distributed_intranet.Base.Text.{Text}
use distributed_intranet.Map.Collect.{collect_set}
use distributed_intranet.Crypto.Dec.{
  Decoder, unknown_variant, ◌>>=◌, ◌>>◌, give, malform, refuse, check, get_fixed, get_variant,
  get_str, get_seq,
}
use distributed_intranet.Governance.Capability.{
  Capability, approve_node, revoke_node, define_group, define_policy, define_content_policy,
  moderate_content, audit_reputation, read_content, manage_membership, publish, extension,
  CapabilitySet, all, explicit, capability_ord,
}
use distributed_intranet.Governance.Group.{InviteProvenance}

abbrev pub max_commit_bytes : ℕ
max_commit_bytes = 128 * 1024

-- entry.rs
abbrev pub max_app_entry_payload_bytes : ℕ
max_app_entry_payload_bytes = 8 * 1024

-- policy.rs
abbrev pub max_bootstrap_relays : ℕ
max_bootstrap_relays = 8

abbrev pub max_relay_address_bytes : ℕ
max_relay_address_bytes = 256

abbrev pub max_electorate : ℕ
max_electorate = 65536

abbrev pub max_ballots : ℕ
max_ballots = max_electorate

-- `Malformed` is that of the reader's answer.
pub data WireError : Type 0 where
  invalid_key bad_signature : WireError
  too_many_entries : (got limit : ℕ) → WireError
  unnamespaced_policy_key : Text → WireError
  malformed_app_entry : (namespace kind : Text) → WireError
  app_payload_too_large commit_too_large : ℕ → WireError

-- `return Err(unknown(...))`
unfoldable pub unknown : {A : Type 0} → ℕ → Decoder WireError A
unfolding malform
unknown discriminant = malform (unknown_variant discriminant)

unfoldable pub capability_of : ℕ → Decoder WireError Capability
unfolding get_str give ◌>>=◌ unknown
capability_of v =
    if v == 0
    then give approve_node
    else if v == 1
    then give revoke_node
    else if v == 2
    then give define_group
    else if v == 3
    then give define_policy
    else if v == 4
    then give define_content_policy
    else if v == 5
    then give moderate_content
    else if v == 6
    then give audit_reputation
    else if v == 7
    then give read_content
    else if v == 8
    then (do group ← get_str; give (manage_membership group))
    else if v == 9
    then (do content_type ← get_str; give (publish content_type))
    else if v == 10
    then (do name ← get_str; give (extension name))
    else unknown v

unfoldable pub get_capability : Decoder WireError Capability
unfolding get_variant capability_of ◌>>=◌
get_capability = do v ← get_variant; capability_of v

unfoldable pub capability_set_of : ℕ → Decoder WireError CapabilitySet
unfolding get_seq get_capability collect_set give ◌>>=◌ unknown
capability_set_of v =
    if v == 0
    then give all
    else if v == 1
    then (do set ← get_seq get_capability; give (explicit (collect_set set)))
    else unknown v

unfoldable pub get_capability_set : Decoder WireError CapabilitySet
unfolding get_variant capability_set_of ◌>>=◌
get_capability_set = do v ← get_variant; capability_set_of v

-- `VerifyingKey::from_bytes`: whether 32 bytes are the encoding of a key.
module _ (valid_key : ℕ → Bool) where
  -- `get_identity`, `get_device_key`
  unfoldable pub get_key : Decoder WireError ℕ
  unfolding get_fixed check refuse give ◌>>=◌
  get_key = do key ← get_fixed 32; check (valid_key key) (refuse invalid_key); give key

  unfoldable pub get_invite_provenance : Decoder WireError InviteProvenance
  unfolding get_fixed get_key give ◌>>=◌
  get_invite_provenance = do
    invite_id ← get_fixed 32
    issuer ← get_key
    give (record { invite_id = invite_id; issuer = issuer })
