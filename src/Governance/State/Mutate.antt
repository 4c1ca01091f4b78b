-- ===== src/Governance/State/Mutate.antt =====
-- `mutate`, `remove_membership`, the checks of a candidate state, `genesis`, `apply` and `replay`
-- of crates/intranet-governance/src/state.rs.
use distributed_intranet.Base.{
  ℕ, ◌+◌, ◌%◌, Bool, true, false, not, Option, none, some, List, [], ◌∷◌,
}
use distributed_intranet.Base.Tests.{if◌then◌else◌, is_some}
use distributed_intranet.Base.Int.{word}
use distributed_intranet.Base.Order.{◌=?◌, text_ord, nat_ord}
use distributed_intranet.Map.{get, insert, remove, keys}
use distributed_intranet.Crypto.{Crypto}
use distributed_intranet.Governance.Capability.{
  GroupId, ordinary, governance, Capability, CapabilitySet, all, explicit, founders, everyone,
}
use distributed_intranet.Governance.Policy.{
  NetworkPolicy, AdmissionMode, auto_admit, explicit_intake, GovernanceModel, capability_holders,
  member_vote,
}
use distributed_intranet.Governance.Error.{
  Result, ok, err, guard, ◌>>=◌, ◌>>◌, expected_genesis, unexpected_genesis, missing_parent,
  bad_signature, everyone_unrestricted, incoherent_policy, everyone_governance_tier, unknown_group,
  invalid_quorum_certificate, wrong_electorate, no_open_vote, below_quorum,
}
use distributed_intranet.Governance.Group.{MembershipRecord, Group, new}
use distributed_intranet.Governance.Vote.{
  VoteOutcome, passed, failed, VoteProposal, QuorumCertificate, vote_id, verify,
}
use distributed_intranet.Governance.Entry.{
  LogEntry, EntryBody, MembershipAction, ModerationAction, entry_hash, verify_signature,
}
use distributed_intranet.Governance.State.{GovernanceState, in_set}
use distributed_intranet.Governance.State.Tier.{tier_of}
use distributed_intranet.Governance.State.Cascade.{remove_from_group}
use distributed_intranet.Governance.State.Authorize.{authorize}

-- `get(group).ok_or(UnknownGroup)`
abbrev pub or_unknown : GroupId → Option Group → Result Group
or_unknown group none = err (unknown_group group)
or_unknown group (some target) = ok target

-- `entry(group).and_modify(capabilities).or_insert_with(Group::new)`
abbrev pub redefined : GroupId → CapabilitySet → Option Group → Group
redefined group capabilities none = new group capabilities
redefined group capabilities (some existing) = record existing { capabilities = capabilities }

abbrev pub put_group : GovernanceState → GroupId → Group → GovernanceState
put_group self group target = record self { groups = insert group target self.groups }

abbrev pub moderate : ModerationAction → ℕ → GovernanceState → GovernanceState
moderate ModerationAction.delist pointer self = record self {
  delisted = insert pointer tt self.delisted;
}
moderate ModerationAction.relist pointer self = record self {
  delisted = remove pointer self.delisted;
}

abbrev pub or_no_vote : Option VoteProposal → Result VoteProposal
or_no_vote none = err (invalid_quorum_certificate no_open_vote)
or_no_vote (some proposal) = ok proposal

abbrev pub require_passed : VoteOutcome → Result (Unit {0})
require_passed passed = ok tt
require_passed failed = err (invalid_quorum_certificate below_quorum)

module _ (crypto : Crypto) where
  unfoldable pub change_members :
      GovernanceState → LogEntry → GroupId → ℕ → MembershipAction → Result GovernanceState
  unfolding get insert remove_from_group
  change_members self entry group identity (MembershipAction.add via_invite) = do
    target ← or_unknown group (get group self.groups)
    let member : MembershipRecord = record {
      added_by = some entry.author;
      added_at = entry.timestamp;
      via_invite = via_invite;
    }
    ok (put_group self group (record target { members = insert identity member target.members }))
  change_members self entry group identity (MembershipAction.remove cascade) = do
    target ← or_unknown group (get group self.groups)
    left ← remove_from_group group identity cascade entry.timestamp target
    ok (put_group self group left)

  unfoldable pub open_vote : GovernanceState → VoteProposal → Result GovernanceState
  unfolding vote_id get insert
  open_vote self proposal = do
    group ← or_unknown proposal.electorate (get proposal.electorate self.groups)
    guard (proposal.electorate_snapshot =? keys group.members)
        (invalid_quorum_certificate wrong_electorate)
    ok (record self { open_votes = insert (vote_id crypto proposal) proposal self.open_votes })

  unfoldable pub settle_vote : GovernanceState → QuorumCertificate → Result GovernanceState
  unfolding verify get insert remove
  settle_vote self certificate = do
    proposal ← or_no_vote (get certificate.vote_id self.open_votes)
    outcome ← verify crypto certificate proposal
    require_passed outcome
    ok (record self {
      open_votes = remove certificate.vote_id self.open_votes;
      passed_votes = insert proposal.subject tt self.passed_votes;
    })

  unfoldable pub mutate : GovernanceState → LogEntry → EntryBody → Result GovernanceState
  unfolding change_members open_vote settle_vote entry_hash get insert remove new
  mutate self entry (EntryBody.genesis _ _ _) = err unexpected_genesis
  mutate self entry (EntryBody.define_group group capabilities) =
      ok (put_group self group (redefined group capabilities (get group self.groups)))
  mutate self entry (EntryBody.membership_change group identity action) =
      change_members self entry group identity action
  mutate self entry (EntryBody.policy_change policy) = ok (record self { policy = policy })
  mutate self entry (EntryBody.content_type_policy allowlist) =
      ok (record self { policy = record self.policy { content_type_allowlist = allowlist } })
  mutate self entry (EntryBody.vote_proposed proposal) = open_vote self proposal
  mutate self entry (EntryBody.vote_outcome certificate) = settle_vote self certificate
  mutate self entry (EntryBody.epoch_rotation _ _) = ok (record self {
    epoch = (self.epoch + 1) % word;
    epoch_rotation_ref = some (entry_hash crypto entry);
  })
  mutate self entry (EntryBody.device_enrollment cert) = ok (
      if in_set cert.device self.revoked_devices
      then self
      else record self { device_certificates = insert cert.device cert self.device_certificates })
  mutate self entry (EntryBody.device_revocation revocation) = ok (record self {
    device_certificates = remove revocation.device self.device_certificates;
    revoked_devices = insert revocation.device tt self.revoked_devices;
  })
  mutate self entry (EntryBody.app_entry _ _ _ _) = ok self
  mutate self entry (EntryBody.app_name_registration name app_id) = ok (record self {
    app_names =
        insert name
          (record { app_id = app_id; owner = entry.author; registered_at = entry.timestamp })
          self.app_names;
  })
  mutate self entry (EntryBody.moderation m) = ok (moderate m.action m.target_pointer_id self)

abbrev pub coherent : GovernanceModel → AdmissionMode → Bool
coherent (member_vote _ _ _) auto_admit = false
coherent (member_vote _ _ _) explicit_intake = true
coherent capability_holders mode = true

unfoldable pub check_policy_coherence : GovernanceState → Result (Unit {0})
check_policy_coherence self =
    guard (coherent self.policy.governance_model self.policy.admission_mode) incoherent_policy

unfoldable pub check_held : GovernanceState → List Capability → Result (Unit {0})
unfolding tier_of
check_held self [] = ok tt
check_held self (capability ∷ rest) = tier_of self capability >>= λ tier. elim tier [
  | governance ↦ err (everyone_governance_tier capability)
  | ordinary ↦ check_held self rest
]

abbrev pub check_everyone : GovernanceState → Option Group → Result (Unit {0})
check_everyone self none = ok tt
check_everyone self (some group) = elim group.capabilities [
  | all ↦ err everyone_unrestricted
  | explicit set ↦ check_held self set
]

unfoldable pub check_everyone_invariant : GovernanceState → Result (Unit {0})
unfolding check_held get
check_everyone_invariant self = check_everyone self (get everyone self.groups)

unfoldable pub checked : GovernanceState → Result GovernanceState
unfolding check_everyone_invariant check_policy_coherence
checked next = do check_everyone_invariant next; check_policy_coherence next; ok next

abbrev pub founding : LogEntry → ℕ → NetworkPolicy → List Capability → GovernanceState
founding entry network policy everyone_capabilities = record {
  network = network;
  policy = policy;
  groups =
      insert founders
        (record {
          id = founders;
          capabilities = all;
          members =
              insert entry.author
                (record { added_by = none; added_at = entry.timestamp; via_invite = none }) [];
        })
        (insert everyone (new everyone (explicit everyone_capabilities)) []);
  device_certificates = [];
  revoked_devices = [];
  delisted = [];
  epoch = 0;
  app_names = [];
  open_votes = [];
  passed_votes = [];
  epoch_rotation_ref = none;
}

abbrev pub found : LogEntry → EntryBody → Result GovernanceState
found entry (EntryBody.genesis network policy everyone_capabilities) =
    checked (founding entry network policy everyone_capabilities)
found entry _ = err expected_genesis

abbrev pub is_genesis : EntryBody → Bool
is_genesis (EntryBody.genesis _ _ _) = true
is_genesis _ = false

module _ (crypto : Crypto) where
  unfoldable pub genesis : LogEntry → Result GovernanceState
  unfolding verify_signature checked insert new
  genesis entry = do
    guard (verify_signature crypto entry) bad_signature
    guard (not (is_some entry.parent)) unexpected_genesis
    found entry entry.body

  unfoldable pub apply : GovernanceState → LogEntry → Result GovernanceState
  unfolding verify_signature authorize mutate checked
  apply self entry = do
    guard (verify_signature crypto entry) bad_signature
    guard (not (is_genesis entry.body)) unexpected_genesis
    guard (is_some entry.parent) missing_parent
    authorize crypto self entry
    next ← mutate crypto self entry entry.body
    checked next

  unfoldable pub replay_from : GovernanceState → List LogEntry → Result GovernanceState
  unfolding apply
  replay_from state [] = ok state
  replay_from state (entry ∷ rest) = apply state entry >>= λ next. replay_from next rest

  unfoldable pub replay : List LogEntry → Result GovernanceState
  unfolding genesis replay_from
  replay [] = err expected_genesis
  replay (entry ∷ rest) = do state ← genesis entry; replay_from state rest
