-- ===== src/Governance/State/VoteFloor.antt =====
-- What the quorum of a member vote binds: the proposal's own number
-- (crates/intranet-governance/src/state.rs).
use distributed_intranet.Base.{ℕ, ◌≤◌, ◌≡◌, refl, true, false, Option, some, [], ◌∷◌}
use distributed_intranet.Base.Tests.{is_some}
use distributed_intranet.Base.Int.{ℤ, ◌≤ℤ◌}
use distributed_intranet.Base.Order.{text_ord, nat_ord}
use distributed_intranet.Map.{Map, get, keys}
use distributed_intranet.Map.Laws.{get-insert_self}
use distributed_intranet.Crypto.{Crypto}
use distributed_intranet.Governance.Capability.{GroupId}
use distributed_intranet.Governance.Policy.{member_vote}
use distributed_intranet.Governance.Error.{ok}
use distributed_intranet.Governance.Group.{InviteProvenance, MembershipRecord, Group}
use distributed_intranet.Governance.Vote.{VoteProposal, Ballot, vote_id, ballot_verifies}
use distributed_intranet.Governance.Entry.{
  LogEntry, EntryBody, MembershipAction, action_hash, verify_signature,
}
use distributed_intranet.Governance.State.{GovernanceState}
use distributed_intranet.Governance.State.Authorize.{authorize}
use distributed_intranet.Governance.State.SelfRemoval.{member_of_found}
use distributed_intranet.Governance.State.Mutate.{is_genesis, mutate, checked, apply, replay_from}
use distributed_intranet.Governance.State.SameTiers.{IsAlike, checked_alike, put_group-IsAlike}
use distributed_intranet.Governance.State.Membership.{in_group}
use distributed_intranet.Governance.State.VoteSteps.{
  listed_voter, by, alone, opened, settled_alone, admitted, member_proposes, still_member,
  member_certifies, member_adds, opening, one_ballot_passes, settling, adding,
}

-- An entry that `apply` would look at: signed, and with a parent.
abbrev pub IsSigned : Crypto → LogEntry → Type 0
IsSigned crypto entry = (verify_signature crypto entry ≡ true) × (is_some entry.parent ≡ true)

apply-step :
    (crypto : Crypto) (self next : GovernanceState) (entry : LogEntry)
    → IsSigned crypto entry
    → is_genesis entry.body ≡ false
    → authorize crypto self entry ≡ ok tt
    → mutate crypto self entry entry.body ≡ ok next
    → checked next ≡ ok next
    → apply crypto self entry ≡ ok next
unfolding apply
apply-step crypto self next entry (signed, parent) later authorized mutated fine =
    rw (signed, later, parent, authorized, mutated) fine

three_steps :
    (crypto : Crypto) (s0 s1 s2 s3 : GovernanceState) (a b c : LogEntry)
    → apply crypto s0 a ≡ ok s1
    → apply crypto s1 b ≡ ok s2
    → apply crypto s2 c ≡ ok s3
    → replay_from crypto s0 (a ∷ b ∷ c ∷ []) ≡ ok s3
unfolding replay_from
three_steps crypto s0 s1 s2 s3 a b c h k l = rw (h, k, l) refl

-- The states of a vote differ from the first in the votes alone.
votes-IsAlike :
    (self : GovernanceState) (running : Map ℕ VoteProposal) (settled : Map ℕ (Unit {0}))
    → IsAlike self (record self { open_votes = running; passed_votes = settled })
votes-IsAlike self running settled = record { policies = refl; sizes = refl; abilities = λ g. refl }

-- In a state that passes its checks, as every replayed one does, a member of any group can put
-- anyone into any group under `GovernanceModel::MemberVote`, whatever quorum, electorate and window
-- the policy sets: they propose a vote of quorum one among their group, certify it with their own
-- ballot, and append the addition. These three entries, signed and with parents, replay on the state
-- with success, and afterwards the newcomer is in the group.
pub lone_member_admits :
    (crypto : Crypto) (self : GovernanceState) (proposal : VoteProposal) (ballot : Ballot)
    (e1 e2 e3 : LogEntry) (target : Group) (own : MembershipRecord) (group : GroupId) (room : Group)
    (newcomer : ℕ) (via : Option InviteProvenance) (electorate : GroupId) (quorum : ℕ) (window : ℤ)
    → checked self ≡ ok self
    → self.policy.governance_model ≡ member_vote electorate quorum window
    → get proposal.electorate self.groups ≡ some target
    → get ballot.voter target.members ≡ some own
    → get group self.groups ≡ some room
    → proposal.electorate_snapshot ≡ keys target.members
    → proposal.quorum ≤ 1
    → proposal.subject
      ≡ action_hash crypto (EntryBody.membership_change group newcomer (MembershipAction.add via))
    → ballot.vote_id ≡ vote_id crypto proposal
    → ballot_verifies crypto ballot ≡ true
    → ballot.approve ≡ true
    → ballot.cast_at ≤ℤ proposal.close_time
    → IsSigned crypto (by ballot.voter (EntryBody.vote_proposed proposal) e1)
    → IsSigned crypto
        (by ballot.voter (EntryBody.vote_outcome (alone crypto self proposal ballot)) e2)
    → IsSigned crypto
        (by ballot.voter (EntryBody.membership_change group newcomer (MembershipAction.add via)) e3)
    → (next : GovernanceState) × (replay_from crypto self (
          by ballot.voter (EntryBody.vote_proposed proposal) e1
          ∷ by ballot.voter (EntryBody.vote_outcome (alone crypto self proposal ballot)) e2
          ∷ by ballot.voter
              (EntryBody.membership_change group newcomer (MembershipAction.add via))
              e3
          ∷ [])
        ≡ ok next)
      × (in_group next group newcomer ≡ true)
lone_member_admits crypto self proposal ballot e1 e2 e3 target own group room newcomer via
      electorate quorum window fine model found inside place roster low subject named signed
      approved timely ready1 ready2 ready3 =
    let member = member_of_found self proposal.electorate ballot.voter found inside in
    let (still1, still2) = still_member crypto self proposal ballot member in
    let passes =
      one_ballot_passes crypto self proposal ballot named signed approved timely
        (rw roster (listed_voter ballot.voter target.members inside)) low in
    let s1 = opened crypto self proposal ballot in
    let s2 = settled_alone crypto self proposal ballot in
    let s3 = admitted crypto self proposal ballot e3 group room newcomer via in
    let fine1 : checked s1 ≡ ok s1 =
      checked_alike self s1 (votes-IsAlike self s1.open_votes s1.passed_votes) fine in
    let fine2 : checked s2 ≡ ok s2 =
      checked_alike self s2 (votes-IsAlike self s2.open_votes s2.passed_votes) fine in
    let fine3 : checked s3 ≡ ok s3 =
      checked_alike s2 s3 (put_group-IsAlike s2 group room _ place refl) fine2 in
    (
      s3,
      three_steps crypto self s1 s2 s3 _ _ _
          (apply-step crypto self s1 _ ready1 refl
            (member_proposes crypto self proposal ballot e1 member)
            (opening crypto self proposal ballot _ target found roster) fine1)
          (apply-step crypto s1 s2 _ ready2 refl
            (member_certifies crypto self proposal ballot e2 still1)
            (settling crypto self proposal ballot _ passes) fine2)
          (apply-step crypto s2 s3 _ ready3 refl
            (member_adds crypto self proposal ballot e3 group newcomer via model (rw place refl)
              subject still2)
            (adding crypto self proposal ballot e3 group room newcomer via place) fine3),
      rw (get-insert_self group _ self.groups, get-insert_self newcomer _ room.members) refl,
    )
