-- ===== src/Governance/State/Addition.antt =====
-- Nobody enters a group without authority (crates/intranet-governance/src/state.rs).
use distributed_intranet.Base.{ℕ, ◌≡◌, sym, subst, ◌⊎◌, true, false, Option, inl, inr}
use distributed_intranet.Base.Order.{text_ord, nat_ord}
use distributed_intranet.Map.{contains_key}
use distributed_intranet.Crypto.{Crypto}
use distributed_intranet.Governance.Capability.{GroupId, manage_membership}
use distributed_intranet.Governance.Error.{
  ok, ◌>>=◌, >>=-eq-ok, guard, guard-eq-ok, unknown_group, not_a_member, unauthorized,
  invalid_quorum_certificate, no_vote_authorizes,
}
use distributed_intranet.Governance.Policy.{GovernanceModel, capability_holders, member_vote}
use distributed_intranet.Governance.Group.{InviteProvenance}
use distributed_intranet.Governance.Entry.{LogEntry, EntryBody, MembershipAction, action_hash}
use distributed_intranet.Governance.State.{GovernanceState, in_set, identity_holds, is_member}
use distributed_intranet.Governance.State.Authorize.{
  Requirement, needs, member_floor, addition_requirement, change_requirement, authorize,
  requirement, held,
}
use distributed_intranet.Governance.State.Mutate.{apply}
use distributed_intranet.Governance.State.Ceiling.{apply-eq-ok}
use distributed_intranet.Governance.State.Membership.{in_group, Grants, mutate-Grants}

module _ (crypto : Crypto) (self : GovernanceState) (author : ℕ) (group : GroupId) where
  -- What lets an author add to the group: the capability, or a vote on the action itself.
  abbrev pub MayAdd : EntryBody → Type 0
  MayAdd body =
      (identity_holds self author (manage_membership group) ≡ true)
      ⊎ ((in_set (action_hash crypto body) self.passed_votes ≡ true)
          × (is_member self author ≡ true))

  floor_passed :
      {required : Requirement}
      → member_floor self author ≡ ok required
      → is_member self author ≡ true
  unfolding member_floor
  floor_passed h =
      let (u, member, h1) = >>=-eq-ok (guard (is_member self author) (not_a_member author)) _ h in
      guard-eq-ok (is_member self author) (not_a_member author) member

  addition-MayAdd :
      (model : GovernanceModel) (body : EntryBody) (required : Requirement)
      → addition_requirement model self author group
          (in_set (action_hash crypto body) self.passed_votes)
        ≡ ok required
      → held crypto self author required ≡ ok tt
      → MayAdd body
  unfolding held
  addition-MayAdd (member_vote e q w) body required h k =
      let vote_passed = in_set (action_hash crypto body) self.passed_votes in
      let no_vote = invalid_quorum_certificate no_vote_authorizes in
      let (u, voted, h1) = >>=-eq-ok (guard vote_passed no_vote) _ h in
      inr (guard-eq-ok vote_passed no_vote voted, floor_passed h1)
  addition-MayAdd capability_holders body required h k =
      let needed : required ≡ needs (manage_membership group) = cc in
      inl (
        guard-eq-ok (identity_holds self author (manage_membership group))
          (unauthorized author (manage_membership group))
          (subst (λ r. held crypto self author r ≡ ok tt) {x = required}
            {y = needs (manage_membership group)} needed k))

  change-MayAdd :
      (identity : ℕ) (via : Option InviteProvenance) (required : Requirement)
      → requirement crypto self author
          (EntryBody.membership_change group identity (MembershipAction.add via))
        ≡ ok required
      → held crypto self author required ≡ ok tt
      → MayAdd (EntryBody.membership_change group identity (MembershipAction.add via))
  unfolding requirement change_requirement
  change-MayAdd identity via required h k =
      let (u, known, h1) =
        >>=-eq-ok (guard (contains_key group self.groups) (unknown_group group)) _ h in
      addition-MayAdd self.policy.governance_model
        (EntryBody.membership_change group identity (MembershipAction.add via)) required h1 k

  authorized-MayAdd :
      (identity : ℕ) (via : Option InviteProvenance) (body : EntryBody)
      → body ≡ EntryBody.membership_change group identity (MembershipAction.add via)
      → requirement crypto self author body >>= held crypto self author ≡ ok tt
      → MayAdd body
  authorized-MayAdd identity via body e h =
      let (required, asked, k) = >>=-eq-ok (requirement crypto self author body) _ h in
      let added : EntryBody =
        EntryBody.membership_change group identity (MembershipAction.add via) in
      subst (λ b. requirement crypto self author b ≡ ok required → MayAdd b) {x = added} {y = body}
        (sym e) (λ asked1. change-MayAdd identity via required asked1 k) asked

-- Whoever is in a group after an entry and was not in it before was added by an entry that names
-- that group and that identity, whose author holds the capability to manage the group's
-- membership, or is a member and the addition itself has passed a vote.
pub entering_needs_authority :
    (crypto : Crypto) (self : GovernanceState) (entry : LogEntry) (group : GroupId) (identity : ℕ)
    (t : GovernanceState)
    → apply crypto self entry ≡ ok t
    → in_group self group identity ≡ false
    → in_group t group identity ≡ true
    → Grants entry.body group identity × MayAdd crypto self entry.author group entry.body
entering_needs_authority crypto self entry group identity t h before after =
    let (signed, authorized, mutated, safe) = apply-eq-ok crypto self entry h in
    elim (mutate-Grants crypto self entry group identity entry.body mutated after) [
      | inl inside ↦ absurd (cc)
      | inr (via, e) ↦ (
        (via, e),
        authorized-MayAdd crypto self entry.author group identity via entry.body e
            (unfold authorize in authorized),
      )
    ]
