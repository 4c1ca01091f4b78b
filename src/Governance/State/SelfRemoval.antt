-- ===== src/Governance/State/SelfRemoval.antt =====
-- Leaving a group needs no capability, whatever cascade the leaving entry carries
-- (crates/intranet-governance/src/state.rs).
use distributed_intranet.Base.{ℕ, ◌≡◌, ◌≢◌, refl, true, false, Option, none, some, arith}
use distributed_intranet.Base.Lists.{Among, here}
use distributed_intranet.Base.Order.{◌=?◌, text_ord, nat_ord}
use distributed_intranet.Map.{get, remove, contains_key}
use distributed_intranet.Map.Laws.{get-insert_self}
use distributed_intranet.Map.Entries.{Among-remove, any-get}
use distributed_intranet.Crypto.{Crypto}
use distributed_intranet.Governance.Capability.{GroupId}
use distributed_intranet.Governance.Error.{ok}
use distributed_intranet.Governance.Group.{MembershipRecord, Group, contains}
use distributed_intranet.Governance.Entry.{Cascade, LogEntry, EntryBody, MembershipAction}
use distributed_intranet.Governance.State.{GovernanceState, is_member}
use distributed_intranet.Governance.State.Authorize.{authorize}
use distributed_intranet.Governance.State.Cascade.{is_doomed, cascade_members}
use distributed_intranet.Governance.State.Cascade.Exact.{start, cascade_members_exact}
use distributed_intranet.Governance.State.Mutate.{mutate, put_group}

pub member_of_found :
    (self : GovernanceState) (group : GroupId) (identity : ℕ) {target : Group}
    {own : MembershipRecord}
    → get group self.groups ≡ some target
    → get identity target.members ≡ some own
    → is_member self identity ≡ true
unfolding is_member
member_of_found self group identity {target} found inside =
    any-get (λ g. contains g identity) group self.groups found (unfold contains in rw inside refl)

module _ (crypto : Crypto) (self : GovernanceState) (entry : LogEntry) (group : GroupId)
    (cascade : Option Cascade) where
  -- An entry that removes its own author is authorized for every member, with any cascade.
  pub self_removal-authorized :
      entry.body ≡ EntryBody.membership_change group entry.author (MembershipAction.remove cascade)
      → contains_key group self.groups ≡ true
      → is_member self entry.author ≡ true
      → authorize crypto self entry ≡ ok tt
  unfolding authorize
  self_removal-authorized e known member = rw (e, known) (ground arith)

  pub self_removal_left :
      {target : Group} {own : MembershipRecord}
      → entry.body
        ≡ EntryBody.membership_change group entry.author (MembershipAction.remove cascade)
      → get group self.groups ≡ some target
      → get entry.author target.members ≡ some own
      → mutate crypto self entry entry.body
        ≡ ok (
            put_group self group (record target {
              members =
                  cascade_members cascade entry.author entry.timestamp
                    (remove entry.author target.members);
            }))
  unfolding mutate
  self_removal_left e found inside = rw (e, found, inside) refl

differs : (a b : ℕ) → a ≢ b → (a =? b) ≡ false
differs a b h = ground arith

-- A member of a group who leaves it by an entry with an unlimited cascade needs no capability to
-- append that entry, and it removes every other member of the group that the leaver has added.
pub self_removal_reaches_others :
    (crypto : Crypto) (self : GovernanceState) (entry : LogEntry) (group : GroupId) (target : Group)
    (own : MembershipRecord) (other : ℕ) (r : MembershipRecord)
    → entry.body
      ≡ EntryBody.membership_change group entry.author
          (MembershipAction.remove (some (record { window_millis = none })))
    → get group self.groups ≡ some target
    → get entry.author target.members ≡ some own
    → Among (other, r) target.members
    → other ≢ entry.author
    → r.added_by ≡ some entry.author
    → (authorize crypto self entry ≡ ok tt)
      × ((next : GovernanceState) × (left : Group) × (mutate crypto self entry entry.body ≡ ok next)
          × (get group next.groups ≡ some left)
          × ¬ Among (other, r) left.members)
self_removal_reaches_others crypto self entry group target own other r e found inside among ne by =
    let all_history : Cascade = record { window_millis = none } in
    let left : Group = record target {
      members =
          cascade_members (some all_history) entry.author entry.timestamp
            (remove entry.author target.members);
    } in
    (
      self_removal-authorized crypto self entry group (some all_history) e (rw found refl)
          (member_of_found self group entry.author found inside),
      (
        put_group self group left,
        left,
        self_removal_left crypto self entry group (some all_history) e found inside,
        get-insert_self group left self.groups,
        λ kept.
            ((cascade_members_exact all_history entry.author entry.timestamp
                  (remove entry.author target.members) other r).0
                kept).1
              (start here (Among-remove entry.author among (differs other entry.author ne))
                (unfold is_doomed in rw by (ground arith))),
      ),
    )
