-- ===== src/Governance/State/Tests.antt =====
-- The governance theorems at concrete networks.
use distributed_intranet.Base.{
  ℕ, ◌+◌, ◌≤◌, ◌<◌, ◌≡◌, ◌↔◌, refl, true, false, Option, none, some, List, [], ◌∷◌, map, arith,
}
use distributed_intranet.Base.Lists.{Among, here, there, length, is_empty}
use distributed_intranet.Base.Int.{pos}
use distributed_intranet.Base.Order.{text_ord, nat_ord}
use distributed_intranet.Map.{Map, get, insert, keys}
use distributed_intranet.Crypto.{Crypto}
use distributed_intranet.Crypto.Merkle.{merkle_root}
use distributed_intranet.Identity.Device.{DeviceCertificate}
use distributed_intranet.Governance.Capability.{
  GroupId, governance, all, explicit, everyone, founders, manage_membership, define_policy,
}
use distributed_intranet.Governance.Policy.{conservative_default, member_vote}
use distributed_intranet.Governance.Error.{ok}
use distributed_intranet.Governance.Group.{MembershipRecord, Group, new}
use distributed_intranet.Governance.Vote.{
  VoteProposal, Ballot, vote_id, ballot_hash, ballot_verifies, passed, verify,
}
use distributed_intranet.Governance.Vote.Quorum.{approving, IsRoll, verify-passed}
use distributed_intranet.Governance.Entry.{
  Cascade, LogEntry, EntryBody, MembershipAction, action_hash, verify_signature,
}
use distributed_intranet.Governance.State.{GovernanceState, in_set, device_is_authorized}
use distributed_intranet.Governance.State.Tier.{tier_of, tier_of_inner}
use distributed_intranet.Governance.State.Tier.Fuel.{tier_of_inner_enough, unvisited}
use distributed_intranet.Governance.State.Tier.Least.{Governs, tier_of-Governs}
use distributed_intranet.Governance.State.Cascade.{cascade_members, cutoff_of}
use distributed_intranet.Governance.State.Cascade.Exact.{Reaches, cascade_members_exact}
use distributed_intranet.Governance.State.Authorize.{authorize}
use distributed_intranet.Governance.State.Mutate.{
  mutate, checked, check_everyone_invariant, apply, replay, replay_from, founding,
}
use distributed_intranet.Governance.State.Ceiling.{IsSafe, replay-IsSafe}
use distributed_intranet.Governance.State.SelfRemoval.{self_removal_reaches_others}
use distributed_intranet.Governance.State.Revocation.{revoked_forever}
use distributed_intranet.Governance.State.Membership.{in_group, Grants}
use distributed_intranet.Governance.State.Addition.{MayAdd, entering_needs_authority}
use distributed_intranet.Governance.State.VoteSteps.{alone, by}
use distributed_intranet.Governance.State.VoteFloor.{IsSigned, lone_member_admits}

-- A digest that is the length of the message, and signatures that always verify.
abbrev toy : Crypto
toy = record { hash_bytes = length; verify = λ _ _ _. true }

abbrev staff : GroupId
staff = 115 ∷ []

abbrev written : ℕ → EntryBody → LogEntry
written author body = record {
  parent = some 1;
  timestamp = pos 20;
  author = author;
  body = body;
  signature = 0;
}

abbrev root : LogEntry
root = record {
  parent = none;
  timestamp = pos 10;
  author = 5;
  body = EntryBody.genesis 7 conservative_default [];
  signature = 0;
}

-- A network with one founder, and with a group of staff whom the founder has added.
abbrev start : GovernanceState
start = founding root 7 conservative_default []

abbrev member_by : Option ℕ → MembershipRecord
member_by adder = record { added_by = adder; added_at = pos 15; via_invite = none }

abbrev crew : Map ℕ MembershipRecord
crew = (5, member_by none) ∷ (6, member_by (some 5)) ∷ (8, member_by (some 6)) ∷ []

abbrev staff_group : Group
staff_group = record { id = staff; capabilities = explicit (define_policy ∷ []); members = crew }

abbrev staffed : GovernanceState
staffed = record start { groups = (staff, staff_group) ∷ start.groups }

abbrev additions : List LogEntry
additions =
    root ∷ written 5 (EntryBody.membership_change everyone 9 (MembershipAction.add none)) ∷ []

abbrev joined : MembershipRecord
joined = record { added_by = some 5; added_at = pos 20; via_invite = none }

-- The network after an addition to `everyone`.
abbrev welcomed : GovernanceState
welcomed = record start {
  groups =
      insert everyone (record (new everyone (explicit [])) { members = (9, joined) ∷ [] })
        start.groups;
}

replayed : replay toy additions ≡ ok welcomed
unfolding replay
replayed = refl

replay-IsSafe_example : IsSafe welcomed
replay-IsSafe_example = replay-IsSafe toy additions replayed

applied :
    apply toy start (written 5 (EntryBody.membership_change everyone 9 (MembershipAction.add none)))
    ≡ ok welcomed
unfolding apply
applied = refl

outside : in_group start everyone 9 ≡ false
unfolding get insert new
outside = refl

inside : in_group welcomed everyone 9 ≡ true
unfolding get insert
inside = refl

entering_needs_authority_example :
    Grants (EntryBody.membership_change everyone 9 (MembershipAction.add none)) everyone 9
    × MayAdd toy start 5 everyone
        (EntryBody.membership_change everyone 9 (MembershipAction.add none))
entering_needs_authority_example =
    entering_needs_authority toy start
      (written 5 (EntryBody.membership_change everyone 9 (MembershipAction.add none))) everyone 9
      welcomed applied outside inside

staff_tier : tier_of staffed (manage_membership staff) ≡ ok governance
unfolding tier_of tier_of_inner insert
staff_tier = refl

tier_of-Governs_example : (governance ≡ governance) ↔ Governs staffed [] (manage_membership staff)
tier_of-Governs_example = tier_of-Governs staffed (manage_membership staff) governance staff_tier

few_groups : unvisited staffed.groups [] < 4
unfolding insert
few_groups = omega arith

tier_of_inner_enough_example :
    tier_of_inner staffed (4 + 3) (manage_membership staff) []
    ≡ tier_of_inner staffed 4 (manage_membership staff) []
tier_of_inner_enough_example =
    tier_of_inner_enough staffed 4 3 (manage_membership staff) [] few_groups

abbrev all_history : Cascade
all_history = record { window_millis = none }

cascade_members_exact_example :
    Among (8, member_by (some 6)) (cascade_members (some all_history) 6 (pos 20) crew) ↔ (
      Among (8, member_by (some 6)) crew
      × ¬ Reaches (cutoff_of none (pos 20)) (6 ∷ []) crew 8 (member_by (some 6)))
cascade_members_exact_example =
    cascade_members_exact all_history 6 (pos 20) crew 8 (member_by (some 6))

abbrev certificate : DeviceCertificate
certificate = record {
  network = 7;
  identity = 5;
  device = 30;
  label = [];
  issued_at = pos 3;
  signature = 0;
}

-- A network where device 30 is revoked, and where its owner enrolls it again.
abbrev revoked : GovernanceState
revoked = record start { revoked_devices = (30, tt) ∷ [] }

enrolled_again :
    replay_from toy revoked (written 5 (EntryBody.device_enrollment certificate) ∷ []) ≡ ok revoked
unfolding replay_from
enrolled_again = refl

listed_revoked : in_set 30 revoked.revoked_devices ≡ true
unfolding get
listed_revoked = refl

revoked_forever_example : device_is_authorized revoked 30 5 ≡ false
revoked_forever_example =
    revoked_forever toy 30 5 revoked (written 5 (EntryBody.device_enrollment certificate) ∷ [])
      revoked listed_revoked enrolled_again

abbrev leaving : LogEntry
leaving =
    written 6 (EntryBody.membership_change staff 6 (MembershipAction.remove (some all_history)))

staff_known : get staff staffed.groups ≡ some staff_group
unfolding get insert
staff_known = refl

six_known : get 6 crew ≡ some (member_by (some 5))
unfolding get
six_known = refl

self_removal_reaches_others_example :
    (authorize toy staffed leaving ≡ ok tt)
    × ((next : GovernanceState) × (left : Group) × (mutate toy staffed leaving leaving.body
          ≡ ok next)
        × (get staff next.groups ≡ some left)
        × ¬ Among (8, member_by (some 6)) left.members)
self_removal_reaches_others_example =
    self_removal_reaches_others toy staffed leaving staff staff_group (member_by (some 5)) 8
      (member_by (some 6)) refl staff_known six_known (there (there here)) (λ e. omega arith) refl

-- A network that admits by a vote of 40, and a vote of one.
abbrev voting : GovernanceState
voting = record staffed {
  policy = record conservative_default { governance_model = member_vote everyone 40 (pos 1000) };
}

abbrev motion : VoteProposal
motion = record {
  subject = action_hash toy (EntryBody.membership_change founders 8 (MembershipAction.add none));
  electorate = staff;
  electorate_snapshot = keys crew;
  snapshot_ref = 1;
  close_time = pos 100;
  quorum = 1;
}

abbrev aye : Ballot
aye = record {
  vote_id = vote_id toy motion;
  voter = 8;
  approve = true;
  cast_at = pos 50;
  signature = 0;
}

abbrev founders_group : Group
founders_group = record {
  id = founders;
  capabilities = all;
  members = (5, record { added_by = none; added_at = pos 10; via_invite = none }) ∷ [];
}

founders_known : get founders voting.groups ≡ some founders_group
unfolding get insert
founders_known = refl

voting_fine : checked voting ≡ ok voting
unfolding checked check_everyone_invariant get insert new
voting_fine = refl

eight_known : get 8 crew ≡ some (member_by (some 6))
unfolding get
eight_known = refl

aye_verifies : ballot_verifies toy aye ≡ true
unfolding ballot_verifies
aye_verifies = refl

toy_signs : (body : EntryBody) → IsSigned toy (by 8 body leaving)
unfolding verify_signature
toy_signs body = (refl, refl)

lone_member_admits_example :
    (next : GovernanceState) × (replay_from toy voting (
        by 8 (EntryBody.vote_proposed motion) leaving
        ∷ by 8 (EntryBody.vote_outcome (alone toy voting motion aye)) leaving
        ∷ by 8 (EntryBody.membership_change founders 8 (MembershipAction.add none)) leaving
        ∷ [])
      ≡ ok next)
    × (in_group next founders 8 ≡ true)
lone_member_admits_example =
    lone_member_admits toy voting motion aye leaving leaving leaving staff_group
      (member_by (some 6)) founders founders_group 8 none everyone 40 (pos 1000) voting_fine refl
      staff_known eight_known founders_known refl (omega arith) refl refl aye_verifies refl
      (omega arith) (toy_signs (EntryBody.vote_proposed motion))
      (toy_signs (EntryBody.vote_outcome (alone toy voting motion aye)))
      (toy_signs (EntryBody.membership_change founders 8 (MembershipAction.add none)))

verify-passed_example : (verify toy (alone toy voting motion aye) motion ≡ ok passed) ↔ (
    ((alone toy voting motion aye).vote_id ≡ vote_id toy motion)
    × (is_empty (aye ∷ []) ≡ false)
    × IsRoll toy motion (vote_id toy motion) [] (aye ∷ [])
    × (merkle_root toy (map (ballot_hash toy) (aye ∷ []))
        ≡ (alone toy voting motion aye).merkle_root)
    × (1 ≤ approving (aye ∷ [])))
verify-passed_example = verify-passed toy (alone toy voting motion aye) motion
