-- ===== src/Governance/Wire/Body.antt =====
-- crates/intranet-governance/src/wire.rs: `put_body` and `get_body`.
use distributed_intranet.Base.{ℕ, Bool}
use distributed_intranet.Base.Tests.{leb, ◌==◌, if◌then◌else◌}
use distributed_intranet.Base.Lists.{length}
use distributed_intranet.Base.Order.{text_ord}
use distributed_intranet.Map.Collect.{collect_set}
use distributed_intranet.Crypto.Enc.{Enc, ◌▸◌, variant, fixed, str, seq, option, i64, u8, bytes}
use distributed_intranet.Crypto.Dec.{
  Decoder, ◌>>=◌, ◌>>◌, give, refuse, check, get_variant, get_u8, get_fixed, get_str, get_seq,
  get_i64, get_bytes, get_option,
}
use distributed_intranet.Governance.Capability.{
  capability_ord, encode_capability, encode_capabilities,
}
use distributed_intranet.Governance.Policy.{encode_policy}
use distributed_intranet.Governance.Group.{encode_provenance}
use distributed_intranet.Governance.Vote.{encode_proposal, encode_certificate}
use distributed_intranet.Governance.Entry.{
  EntryBody, genesis, define_group, membership_change, policy_change, content_type_policy,
  epoch_rotation, vote_proposed, vote_outcome, device_enrollment, device_revocation, moderation,
  app_name_registration, app_entry, MembershipAction, add, remove, Cascade, encode_cascade,
  RotationReason, member_revoked, self_initiated, member_admitted, reason_tag, ModerationAction,
  delist, relist, moderation_tag, is_valid_app_entry_name,
}
use distributed_intranet.Governance.Wire.{
  WireError, unknown, commit_too_large, malformed_app_entry, app_payload_too_large,
  max_commit_bytes, max_app_entry_payload_bytes, get_key, get_invite_provenance, get_capability,
  get_capability_set,
}
use distributed_intranet.Governance.Wire.Policy.{get_policy}
use distributed_intranet.Governance.Wire.Votes.{get_proposal, get_certificate}

unfoldable pub put_action : MembershipAction → Enc → Enc
unfolding variant option encode_provenance encode_cascade
put_action (add via_invite) e = e ▸ variant 0 ▸ option via_invite encode_provenance
put_action (remove cascade) e = e ▸ variant 1 ▸ option cascade encode_cascade

-- `put_policy`, `put_proposal` and `put_certificate` are calls of the types' `encode`.
unfoldable pub put_body : EntryBody → Enc → Enc
unfolding put_action variant fixed str seq i64 u8 bytes encode_policy encode_capability
    encode_capabilities encode_proposal encode_certificate reason_tag moderation_tag
put_body (genesis network policy everyone_capabilities) e =
    e
    ▸ variant 0
    ▸ fixed 32 network
    ▸ encode_policy policy
    ▸ seq everyone_capabilities encode_capability
put_body (define_group group capabilities) e =
    e ▸ variant 1 ▸ str group ▸ encode_capabilities capabilities
put_body (membership_change group identity action) e =
    e ▸ variant 2 ▸ str group ▸ fixed 32 identity ▸ put_action action
put_body (policy_change policy) e = e ▸ variant 3 ▸ encode_policy policy
put_body (content_type_policy allowlist) e = e ▸ variant 4 ▸ seq allowlist str
put_body (epoch_rotation reason commit) e = e ▸ variant 5 ▸ u8 (reason_tag reason) ▸ bytes commit
put_body (vote_proposed proposal) e = e ▸ variant 10 ▸ encode_proposal proposal
put_body (vote_outcome certificate) e = e ▸ variant 11 ▸ encode_certificate certificate
put_body (device_enrollment cert) e =
    e
    ▸ variant 6
    ▸ fixed 32 cert.network
    ▸ fixed 32 cert.identity
    ▸ fixed 32 cert.device
    ▸ str cert.label
    ▸ i64 cert.issued_at
    ▸ fixed 64 cert.signature
put_body (device_revocation revocation) e =
    e
    ▸ variant 7
    ▸ fixed 32 revocation.network
    ▸ fixed 32 revocation.identity
    ▸ fixed 32 revocation.device
    ▸ i64 revocation.revoked_at
    ▸ fixed 64 revocation.signature
put_body (moderation m) e =
    e ▸ variant 8 ▸ u8 (moderation_tag m.action) ▸ fixed 32 m.target_pointer_id
put_body (app_name_registration name app_id) e = e ▸ variant 9 ▸ str name ▸ fixed 32 app_id
put_body (app_entry namespace kind required payload) e =
    e ▸ variant 12 ▸ str namespace ▸ str kind ▸ encode_capability required ▸ bytes payload

unfoldable pub get_cascade : Decoder WireError Cascade
unfolding get_option get_i64 give ◌>>=◌
get_cascade = do w ← get_option get_i64; give (record { window_millis = w })

unfoldable pub reason_of : ℕ → Decoder WireError RotationReason
unfolding give unknown
reason_of t =
    if t == 0
    then give member_revoked
    else if t == 1
    then give self_initiated
    else if t == 2
    then give member_admitted
    else unknown t

unfoldable pub moderation_of : ℕ → Decoder WireError ModerationAction
unfolding give unknown
moderation_of t = if t == 0 then give delist else if t == 1 then give relist else unknown t

unfoldable pub get_rotation : Decoder WireError EntryBody
unfolding get_u8 reason_of get_bytes check refuse give ◌>>=◌
get_rotation = do
  t ← get_u8
  reason ← reason_of t
  commit ← get_bytes
  check (leb (length commit) max_commit_bytes) (refuse (commit_too_large (length commit)))
  give (epoch_rotation reason commit)

unfoldable pub get_moderation : Decoder WireError EntryBody
unfolding get_u8 moderation_of get_fixed give ◌>>=◌
get_moderation = do
  t ← get_u8
  action ← moderation_of t
  target_pointer_id ← get_fixed 32
  give (moderation (record { action = action; target_pointer_id = target_pointer_id }))

unfoldable pub get_app_entry : Decoder WireError EntryBody
unfolding get_str get_capability get_bytes check refuse give ◌>>=◌
get_app_entry = do
  namespace ← get_str
  kind ← get_str
  check (is_valid_app_entry_name namespace kind) (refuse (malformed_app_entry namespace kind))
  required ← get_capability
  payload ← get_bytes
  check (leb (length payload) max_app_entry_payload_bytes)
      (refuse (app_payload_too_large (length payload)))
  give (app_entry namespace kind required payload)

module _ (valid_key : ℕ → Bool) where
  unfoldable pub action_of : ℕ → Decoder WireError MembershipAction
  unfolding get_option get_invite_provenance get_cascade give unknown ◌>>=◌
  action_of v =
      if v == 0
      then (do via_invite ← get_option (get_invite_provenance valid_key); give (add via_invite))
      else if v == 1
      then (do cascade ← get_option get_cascade; give (remove cascade))
      else unknown v

  unfoldable pub get_membership : Decoder WireError EntryBody
  unfolding get_str get_key get_variant action_of give ◌>>=◌
  get_membership = do
    group ← get_str
    identity ← get_key valid_key
    v ← get_variant
    action ← action_of v
    give (membership_change group identity action)

  unfoldable pub get_enrollment : Decoder WireError EntryBody
  unfolding get_fixed get_key get_str get_i64 give ◌>>=◌
  get_enrollment = do
    network ← get_fixed 32
    identity ← get_key valid_key
    device ← get_key valid_key
    label ← get_str
    issued_at ← get_i64
    signature ← get_fixed 64
    give (
        device_enrollment (record {
          network = network;
          identity = identity;
          device = device;
          label = label;
          issued_at = issued_at;
          signature = signature;
        }))

  unfoldable pub get_device_revocation : Decoder WireError EntryBody
  unfolding get_fixed get_key get_i64 give ◌>>=◌
  get_device_revocation = do
    network ← get_fixed 32
    identity ← get_key valid_key
    device ← get_key valid_key
    revoked_at ← get_i64
    signature ← get_fixed 64
    give (
        device_revocation (record {
          network = network;
          identity = identity;
          device = device;
          revoked_at = revoked_at;
          signature = signature;
        }))

  unfoldable pub get_genesis : Decoder WireError EntryBody
  unfolding get_fixed get_policy get_seq get_capability collect_set give ◌>>=◌
  get_genesis = do
    network ← get_fixed 32
    policy ← get_policy
    capabilities ← get_seq get_capability
    give (genesis network policy (collect_set capabilities))

  unfoldable pub body_of : ℕ → Decoder WireError EntryBody
  unfolding get_genesis get_membership get_policy get_seq get_str get_rotation get_proposal
      get_certificate get_enrollment get_device_revocation get_moderation get_app_entry get_fixed
      get_capability_set collect_set give unknown ◌>>=◌
  body_of v =
      if v == 0
      then get_genesis
      else if v == 1
      then (do
        group ← get_str
        capabilities ← get_capability_set
        give (define_group group capabilities))
      else if v == 2
      then get_membership
      else if v == 3
      then (do policy ← get_policy; give (policy_change policy))
      else if v == 4
      then (do allowlist ← get_seq get_str; give (content_type_policy (collect_set allowlist)))
      else if v == 5
      then get_rotation
      else if v == 10
      then (do proposal ← get_proposal valid_key; give (vote_proposed proposal))
      else if v == 11
      then (do certificate ← get_certificate valid_key; give (vote_outcome certificate))
      else if v == 6
      then get_enrollment
      else if v == 7
      then get_device_revocation
      else if v == 8
      then get_moderation
      else if v == 9
      then (do name ← get_str; app_id ← get_fixed 32; give (app_name_registration name app_id))
      else if v == 12
      then get_app_entry
      else unknown v

  unfoldable pub get_body : Decoder WireError EntryBody
  unfolding get_variant body_of ◌>>=◌
  get_body = do v ← get_variant; body_of v
