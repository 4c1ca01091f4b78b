-- ===== src/Governance/State/VoteSteps.antt =====
-- The steps of a vote that one member holds alone: each is authorized and carried out
-- (crates/intranet-governance/src/state.rs).
use distributed_intranet.Base.{ℕ, ◌≤◌, ◌≡◌, refl, true, Option, some, [], ◌∷◌, arith}
use distributed_intranet.Base.Tests.{◌==◌}
use distributed_intranet.Base.Lists.{any}
use distributed_intranet.Base.Int.{ℤ, ◌≤ℤ◌}
use distributed_intranet.Base.Order.{=?_refl, text_ord, nat_ord}
use distributed_intranet.Map.{Map, get, insert, remove, keys, contains_key}
use distributed_intranet.Map.Laws.{get-insert_self}
use distributed_intranet.Crypto.{Crypto}
use distributed_intranet.Crypto.Merkle.{merkle_root}
use distributed_intranet.Governance.Capability.{GroupId}
use distributed_intranet.Governance.Policy.{member_vote}
use distributed_intranet.Governance.Error.{ok}
use distributed_intranet.Governance.Group.{InviteProvenance, MembershipRecord, Group}
use distributed_intranet.Governance.Vote.{
  VoteProposal, Ballot, QuorumCertificate, vote_id, ballot_hash, ballot_verifies, passed, verify,
}
use distributed_intranet.Governance.Vote.Quorum.{verify-passed}
use distributed_intranet.Governance.Entry.{LogEntry, EntryBody, MembershipAction, action_hash}
use distributed_intranet.Governance.State.{GovernanceState, in_set, is_member}
use distributed_intranet.Governance.State.Authorize.{authorize}
use distributed_intranet.Governance.State.Mutate.{
  mutate, change_members, put_group, open_vote, settle_vote,
}

pub listed_voter :
    (x : ℕ) (members : Map ℕ MembershipRecord) {own : MembershipRecord}
    → get x members ≡ some own
    → any (λ v. v == x) (keys members) ≡ true
unfolding get
listed_voter x [] h = cc
listed_voter x ((j, r) ∷ rest) {own} h = ground (arith, listed_voter x rest {own = own})

-- The entry with another author and body.
abbrev pub by : ℕ → EntryBody → LogEntry → LogEntry
by author body entry = record entry { author = author; body = body }

module _ (crypto : Crypto) (self : GovernanceState) (proposal : VoteProposal)
    (ballot : Ballot) where
  -- The certificate of one ballot.
  abbrev pub alone : QuorumCertificate
  alone = record {
    vote_id = vote_id crypto proposal;
    ballots = ballot ∷ [];
    merkle_root = merkle_root crypto (ballot_hash crypto ballot ∷ []);
  }

  -- The state once the vote has been opened, and once it has been settled.
  abbrev pub opened : GovernanceState
  opened = record self { open_votes = insert (vote_id crypto proposal) proposal self.open_votes }

  abbrev pub settled_alone : GovernanceState
  settled_alone = record self {
    open_votes = remove (vote_id crypto proposal) opened.open_votes;
    passed_votes = insert proposal.subject tt self.passed_votes;
  }

  pub member_proposes :
      (entry : LogEntry)
      → is_member self ballot.voter ≡ true
      → authorize crypto self (by ballot.voter (EntryBody.vote_proposed proposal) entry) ≡ ok tt
  unfolding authorize
  member_proposes entry member = rw member refl

  pub still_member :
      is_member self ballot.voter ≡ true
      → (is_member opened ballot.voter ≡ true) × (is_member settled_alone ballot.voter ≡ true)
  unfolding is_member
  still_member h = (h, h)

  pub member_certifies :
      (entry : LogEntry)
      → is_member opened ballot.voter ≡ true
      → authorize crypto opened (by ballot.voter (EntryBody.vote_outcome alone) entry) ≡ ok tt
  unfolding authorize
  member_certifies entry member = rw member refl

  pub member_adds :
      (entry : LogEntry) (group : GroupId) (newcomer : ℕ) (via : Option InviteProvenance)
      {electorate : GroupId} {quorum : ℕ} {window : ℤ}
      → self.policy.governance_model ≡ member_vote electorate quorum window
      → contains_key group self.groups ≡ true
      → proposal.subject
        ≡ action_hash crypto (EntryBody.membership_change group newcomer (MembershipAction.add via))
      → is_member settled_alone ballot.voter ≡ true
      → authorize crypto settled_alone (
          by ballot.voter
            (EntryBody.membership_change group newcomer (MembershipAction.add via))
            entry)
        ≡ ok tt
  unfolding authorize
  member_adds entry group newcomer via model known subject member =
      let passed_now : in_set proposal.subject settled_alone.passed_votes ≡ true =
        rw (in_set, get-insert_self proposal.subject tt self.passed_votes) refl in
      simp (known, model, ← subject, passed_now, member)

  pub opening :
      (entry : LogEntry) (target : Group)
      → get proposal.electorate self.groups ≡ some target
      → proposal.electorate_snapshot ≡ keys target.members
      → mutate crypto self entry (EntryBody.vote_proposed proposal) ≡ ok opened
  unfolding mutate open_vote
  opening entry target found roster = rw (found, roster, =?_refl (keys target.members)) refl

  pub one_ballot_passes :
      ballot.vote_id ≡ vote_id crypto proposal
      → ballot_verifies crypto ballot ≡ true
      → ballot.approve ≡ true
      → ballot.cast_at ≤ℤ proposal.close_time
      → any (λ v. v == ballot.voter) proposal.electorate_snapshot ≡ true
      → proposal.quorum ≤ 1
      → verify crypto alone proposal ≡ ok passed
  one_ballot_passes named signed approved timely listed low =
      (verify-passed crypto alone proposal).1
        (refl, refl, (named, signed, listed, timely, refl, tt), refl, rw approved (ground arith))

  pub settling :
      (entry : LogEntry)
      → verify crypto alone proposal ≡ ok passed
      → mutate crypto opened entry (EntryBody.vote_outcome alone) ≡ ok settled_alone
  unfolding mutate settle_vote
  settling entry passes =
      rw (get-insert_self (vote_id crypto proposal) proposal self.open_votes, passes) refl

  -- The state once the newcomer is added to a group.
  abbrev pub admitted : LogEntry → GroupId → Group → ℕ → Option InviteProvenance → GovernanceState
  admitted entry group room newcomer via = put_group settled_alone group (record room {
    members =
        insert newcomer
          (record { added_by = some ballot.voter; added_at = entry.timestamp; via_invite = via })
          room.members;
  })

  pub adding :
      (entry : LogEntry) (group : GroupId) (room : Group) (newcomer : ℕ)
      (via : Option InviteProvenance)
      → get group self.groups ≡ some room
      → mutate crypto settled_alone
          (by ballot.voter
            (EntryBody.membership_change group newcomer (MembershipAction.add via))
            entry)
          (EntryBody.membership_change group newcomer (MembershipAction.add via))
        ≡ ok (admitted entry group room newcomer via)
  unfolding mutate change_members
  adding entry group room newcomer via found = rw found refl
