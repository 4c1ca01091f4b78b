-- ===== src/Governance/Entry.antt =====
-- crates/intranet-governance/src/entry.rs: the entries of the log.
use distributed_intranet.Base.{ℕ, Bool, true, false, not, ◌&&◌, Option, List}
use distributed_intranet.Base.Tests.{◌==◌}
use distributed_intranet.Base.Lists.{any, is_empty}
use distributed_intranet.Base.Int.{ℤ}
use distributed_intranet.Base.Text.{Text}
use distributed_intranet.Crypto.{Crypto}
use distributed_intranet.Crypto.Enc.{
  Enc, ◌▸◌, domain, variant, fixed, str, seq, option, i64, u8, bytes,
}
use distributed_intranet.Crypto.Time.{Timestamp}
use distributed_intranet.Identity.Device.{DeviceCertificate, DeviceCertificateRevocation}
use distributed_intranet.Governance.Capability.{
  GroupId, ContentType, Capability, CapabilitySet, encode_capability, encode_capabilities,
}
use distributed_intranet.Governance.Policy.{NetworkPolicy, encode_policy}
use distributed_intranet.Governance.Group.{InviteProvenance, encode_provenance}
use distributed_intranet.Governance.Vote.{
  VoteProposal, QuorumCertificate, encode_proposal, encode_certificate,
}

pub data ModerationAction : Type 0 where
  delist relist : ModerationAction

pub record ModerationEntry : Type 0 where
  pub action : ModerationAction
  pub target_pointer_id : ℕ

pub record Cascade : Type 0 where
  pub window_millis : Option ℤ

pub data MembershipAction : Type 0 where
  add : Option InviteProvenance → MembershipAction
  remove : Option Cascade → MembershipAction

pub data RotationReason : Type 0 where
  member_admitted member_revoked self_initiated : RotationReason

pub data EntryBody : Type 0 where
  genesis : ℕ → NetworkPolicy → List Capability → EntryBody
  define_group : GroupId → CapabilitySet → EntryBody
  membership_change : GroupId → ℕ → MembershipAction → EntryBody
  policy_change : NetworkPolicy → EntryBody
  content_type_policy : List ContentType → EntryBody
  epoch_rotation : RotationReason → List ℕ → EntryBody
  vote_proposed : VoteProposal → EntryBody
  vote_outcome : QuorumCertificate → EntryBody
  device_enrollment : DeviceCertificate → EntryBody
  device_revocation : DeviceCertificateRevocation → EntryBody
  moderation : ModerationEntry → EntryBody
  app_name_registration : Text → ℕ → EntryBody
  app_entry : Text → Text → Capability → List ℕ → EntryBody

pub record LogEntry : Type 0 where
  pub parent : Option ℕ
  pub timestamp : Timestamp
  pub author : ℕ
  pub body : EntryBody
  pub signature : ℕ

-- `!namespace.is_empty() && !kind.is_empty() && !namespace.contains(':')`
unfoldable pub is_valid_app_entry_name : Text → Text → Bool
is_valid_app_entry_name namespace kind =
    not (is_empty namespace) && (not (is_empty kind) && not (any (λ c. c == b':') namespace))

-- `EntryBody::is_capability_gated`
unfoldable pub body_gated : EntryBody → Bool
body_gated (genesis _ _ _) = false
body_gated (device_enrollment _) = false
body_gated (device_revocation _) = false
body_gated (vote_proposed _) = false
body_gated (vote_outcome _) = false
body_gated (epoch_rotation member_admitted _) = true
body_gated (epoch_rotation member_revoked _) = true
body_gated (epoch_rotation self_initiated _) = false
body_gated (define_group _ _) = true
body_gated (membership_change _ _ _) = true
body_gated (policy_change _) = true
body_gated (content_type_policy _) = true
body_gated (moderation _) = true
body_gated (app_name_registration _ _) = true
body_gated (app_entry _ _ _ _) = false

gated_by : ℕ → EntryBody → Bool
unfolding body_gated
gated_by author (membership_change group identity (remove cascade)) = not (identity == author)
gated_by author body = body_gated body

-- `LogEntry::is_capability_gated`
unfoldable pub is_capability_gated : LogEntry → Bool
unfolding gated_by
is_capability_gated entry = gated_by entry.author entry.body

unfoldable pub reason_tag : RotationReason → ℕ
reason_tag member_revoked = 0
reason_tag self_initiated = 1
reason_tag member_admitted = 2

unfoldable pub moderation_tag : ModerationAction → ℕ
moderation_tag delist = 0
moderation_tag relist = 1

unfoldable pub encode_cascade : Cascade → Enc → Enc
unfolding option i64
encode_cascade cascade e = e ▸ option cascade.window_millis i64

unfoldable pub encode_action : MembershipAction → Enc → Enc
unfolding variant option encode_cascade encode_provenance
encode_action (add via_invite) e = e ▸ variant 0 ▸ option via_invite encode_provenance
encode_action (remove cascade) e = e ▸ variant 1 ▸ option cascade encode_cascade

unfoldable pub encode_body : EntryBody → Enc → Enc
unfolding encode_policy encode_capability encode_capabilities encode_action encode_proposal
    encode_certificate reason_tag moderation_tag variant fixed str seq i64 u8 bytes
encode_body (genesis network policy everyone_capabilities) e =
    e
    ▸ variant 0
    ▸ fixed 32 network
    ▸ encode_policy policy
    ▸ seq everyone_capabilities encode_capability
encode_body (define_group group capabilities) e =
    e ▸ variant 1 ▸ str group ▸ encode_capabilities capabilities
encode_body (membership_change group identity action) e =
    e ▸ variant 2 ▸ str group ▸ fixed 32 identity ▸ encode_action action
encode_body (policy_change policy) e = e ▸ variant 3 ▸ encode_policy policy
encode_body (content_type_policy allowlist) e = e ▸ variant 4 ▸ seq allowlist str
encode_body (epoch_rotation reason commit) e = e ▸ variant 5 ▸ u8 (reason_tag reason) ▸ bytes commit
encode_body (vote_proposed proposal) e = e ▸ variant 10 ▸ encode_proposal proposal
encode_body (vote_outcome certificate) e = e ▸ variant 11 ▸ encode_certificate certificate
encode_body (device_enrollment cert) e =
    e
    ▸ variant 6
    ▸ fixed 32 cert.network
    ▸ fixed 32 cert.identity
    ▸ fixed 32 cert.device
    ▸ str cert.label
    ▸ i64 cert.issued_at
    ▸ fixed 64 cert.signature
encode_body (device_revocation revocation) e =
    e
    ▸ variant 7
    ▸ fixed 32 revocation.network
    ▸ fixed 32 revocation.identity
    ▸ fixed 32 revocation.device
    ▸ i64 revocation.revoked_at
    ▸ fixed 64 revocation.signature
encode_body (app_name_registration name app_id) e = e ▸ variant 9 ▸ str name ▸ fixed 32 app_id
encode_body (app_entry namespace kind required payload) e =
    e ▸ variant 12 ▸ str namespace ▸ str kind ▸ encode_capability required ▸ bytes payload
encode_body (moderation m) e =
    e ▸ variant 8 ▸ u8 (moderation_tag m.action) ▸ fixed 32 m.target_pointer_id

unfoldable pub entry_payload : LogEntry → Enc
unfolding encode_body domain option fixed i64
entry_payload entry =
    domain "intranet.governance-entry.v1"
    ▸ option entry.parent (fixed 32)
    ▸ i64 entry.timestamp
    ▸ fixed 32 entry.author
    ▸ encode_body entry.body

module _ (crypto : Crypto) where
  unfoldable pub action_hash : EntryBody → ℕ
  unfolding encode_body domain
  action_hash body =
      crypto.hash_bytes (domain "intranet.governance-action-hash.v1" ▸ encode_body body)

  unfoldable pub entry_hash : LogEntry → ℕ
  unfolding entry_payload domain bytes fixed
  entry_hash entry = crypto.hash_bytes (
      domain "intranet.governance-entry-hash.v1"
      ▸ bytes (entry_payload entry)
      ▸ fixed 64 entry.signature)

  unfoldable pub verify_signature : LogEntry → Bool
  unfolding entry_payload
  verify_signature entry = crypto.verify entry.author (entry_payload entry) entry.signature
