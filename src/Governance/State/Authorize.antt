-- ===== src/Governance/State/Authorize.antt =====
-- `authorize` and `authorize_device_record` of crates/intranet-governance/src/state.rs.
use distributed_intranet.Base.{ℕ, Bool}
use distributed_intranet.Base.Tests.{◌==◌, if◌then◌else◌}
use distributed_intranet.Base.Order.{text_ord, nat_ord}
use distributed_intranet.Map.{get, contains_key}
use distributed_intranet.Crypto.{Crypto}
use distributed_intranet.Identity.Device.{
  verify_for_network, verify_revocation, Verdict, verified, refused,
}
use distributed_intranet.Governance.Capability.{
  GroupId, Capability, approve_node, revoke_node, define_group, define_policy,
  define_content_policy, moderate_content, manage_membership, extension, reclaim_app_name,
  register_app_name,
}
use distributed_intranet.Governance.Policy.{GovernanceModel, capability_holders, member_vote}
use distributed_intranet.Governance.Error.{
  Result, ok, err, guard, ◌>>=◌, ◌>>◌, unexpected_genesis, not_a_member, unauthorized,
  unknown_group, bad_device_record, device_record_author_mismatch, network_mismatch,
  invalid_quorum_certificate, no_vote_authorizes,
}
use distributed_intranet.Governance.Entry.{
  LogEntry, EntryBody, MembershipAction, RotationReason, action_hash,
}
use distributed_intranet.Governance.State.{GovernanceState, identity_holds, is_member, in_set}

-- What the match on the body settles: an early `return Ok(())`, or the capability to hold.
pub data Requirement : Type 0 where
  settled : Requirement
  needs : Capability → Requirement

-- `Ok(())` for a member, `NotAMember` for anyone else
unfoldable pub member_floor : GovernanceState → ℕ → Result Requirement
unfolding is_member
member_floor self author = do guard (is_member self author) (not_a_member author); ok settled

unfoldable pub authorize_device_record : GovernanceState → ℕ → ℕ → Result Requirement
unfolding member_floor
authorize_device_record self author subject = do
  guard (author == subject) (device_record_author_mismatch subject author)
  member_floor self author

-- `map_err` to `BadDeviceRecord`
abbrev pub or_bad_record : Verdict → Result (Unit {0})
or_bad_record verified = ok tt
or_bad_record (refused _) = err bad_device_record

abbrev pub rotation_requirement : GovernanceState → ℕ → RotationReason → Result Requirement
rotation_requirement self author RotationReason.member_admitted = ok (needs approve_node)
rotation_requirement self author RotationReason.member_revoked = ok (needs revoke_node)
rotation_requirement self author RotationReason.self_initiated = member_floor self author

-- An addition under `GovernanceModel`: by vote, or by capability.
abbrev pub addition_requirement :
    GovernanceModel → GovernanceState → ℕ → GroupId → Bool → Result Requirement
addition_requirement (member_vote electorate quorum window) self author group vote_passed = do
  guard vote_passed (invalid_quorum_certificate no_vote_authorizes)
  member_floor self author
addition_requirement capability_holders self author group vote_passed =
    ok (needs (manage_membership group))

module _ (crypto : Crypto) where
  unfoldable pub change_requirement :
      GovernanceState → ℕ → EntryBody → GroupId → ℕ → MembershipAction → Result Requirement
  unfolding action_hash member_floor get
  change_requirement self author body group identity (MembershipAction.remove cascade) = do
    guard (contains_key group self.groups) (unknown_group group)
    if identity == author then member_floor self author else ok (needs (manage_membership group))
  change_requirement self author body group identity (MembershipAction.add via_invite) = do
    guard (contains_key group self.groups) (unknown_group group)
    addition_requirement self.policy.governance_model self author group
        (in_set (action_hash crypto body) self.passed_votes)

  unfoldable pub requirement : GovernanceState → ℕ → EntryBody → Result Requirement
  unfolding change_requirement authorize_device_record verify_for_network verify_revocation get
  requirement self author (EntryBody.genesis _ _ _) = err unexpected_genesis
  requirement self author (EntryBody.define_group _ _) = ok (needs define_group)
  requirement self author (EntryBody.policy_change _) = ok (needs define_policy)
  requirement self author (EntryBody.content_type_policy _) = ok (needs define_content_policy)
  requirement self author (EntryBody.moderation _) = ok (needs moderate_content)
  requirement self author (EntryBody.app_entry _ _ required _) = ok (needs required)
  requirement self author (EntryBody.app_name_registration name _) = ok (
      needs (
        extension
          (if contains_key name self.app_names then reclaim_app_name else register_app_name)))
  requirement self author (EntryBody.membership_change group identity action) =
      change_requirement self author (EntryBody.membership_change group identity action) group
        identity action
  requirement self author (EntryBody.vote_proposed _) = member_floor self author
  requirement self author (EntryBody.vote_outcome _) = member_floor self author
  requirement self author (EntryBody.epoch_rotation reason _) =
      rotation_requirement self author reason
  requirement self author (EntryBody.device_enrollment cert) = do
    or_bad_record (verify_for_network crypto cert self.network)
    authorize_device_record self author cert.identity
  requirement self author (EntryBody.device_revocation revocation) = do
    or_bad_record (verify_revocation crypto revocation)
    guard (revocation.network == self.network) (network_mismatch revocation.network self.network)
    authorize_device_record self author revocation.identity

  -- `identity_holds` of what is needed
  unfoldable pub held : GovernanceState → ℕ → Requirement → Result (Unit {0})
  unfolding identity_holds
  held self author settled = ok tt
  held self author (needs required) =
      guard (identity_holds self author required) (unauthorized author required)

  unfoldable pub authorize : GovernanceState → LogEntry → Result (Unit {0})
  unfolding requirement held
  authorize self entry = do
    required ← requirement self entry.author entry.body
    held self entry.author required
