-- ===== src/Governance/State/Cascade.antt =====
-- `remove_membership` of crates/intranet-governance/src/state.rs, with its cascade.
pub mod Exact
use distributed_intranet.Base.{
  ℕ, zero, suc, ◌+◌, Bool, true, false, not, ◌&&◌, Option, none, some, List, [], ◌∷◌, ◌++◌,
}
use distributed_intranet.Base.Tests.{◌==◌, if◌then◌else◌}
use distributed_intranet.Base.Lists.{length, rev}
use distributed_intranet.Base.Int.{ℤ, pos, ◌-ℤ◌, leb_ℤ, wrap}
use distributed_intranet.Base.Order.{text_ord, nat_ord}
use distributed_intranet.Map.{Map, get, insert, remove, retain, keys}
use distributed_intranet.Crypto.Time.{Timestamp, plus_millis}
use distributed_intranet.Governance.Capability.{GroupId}
use distributed_intranet.Governance.Error.{Result, ok, err, not_in_group, unknown_group}
use distributed_intranet.Governance.Group.{MembershipRecord, Group}
use distributed_intranet.Governance.Entry.{Cascade}
use distributed_intranet.Governance.State.{GovernanceState}

-- `record.added_by == Some(remover)`
abbrev pub was_added_by : Option ℕ → ℕ → Bool
was_added_by none remover = false
was_added_by (some adder) remover = adder == remover

-- `cutoff.is_none_or(|cutoff| record.added_at >= cutoff)`
abbrev pub is_recent : Option Timestamp → Timestamp → Bool
is_recent none added_at = true
is_recent (some cutoff) added_at = leb_ℤ cutoff added_at

unfoldable pub is_doomed : Option Timestamp → ℕ → MembershipRecord → Bool
is_doomed cutoff remover r = was_added_by r.added_by remover && is_recent cutoff r.added_at

-- `while let Some(remover) = pending.pop()`, with the end of the vector first. Each round takes
-- one identity off `pending` or off the members for good, so the members and one more are fuel.
unfoldable pub cascade_loop :
    ℕ → Option Timestamp → List ℕ → Map ℕ MembershipRecord → Map ℕ MembershipRecord
unfolding is_doomed retain
cascade_loop zero cutoff pending members = members
cascade_loop (suc fuel) cutoff [] members = members
cascade_loop (suc fuel) cutoff (remover ∷ pending) members =
    cascade_loop fuel cutoff
      (rev (keys (retain (λ _ r. is_doomed cutoff remover r) members)) ++ pending)
      (retain (λ _ r. not (is_doomed cutoff remover r)) members)

-- `window_millis.map(|window| removed_at.plus_millis(-window))`
abbrev pub cutoff_of : Option ℤ → Timestamp → Option Timestamp
cutoff_of none removed_at = none
cutoff_of (some window) removed_at = some (plus_millis removed_at (wrap (pos 0 -ℤ window)))

unfoldable pub cascade_members :
    Option Cascade → ℕ → Timestamp → Map ℕ MembershipRecord → Map ℕ MembershipRecord
unfolding cascade_loop plus_millis wrap
cascade_members none identity removed_at members = members
cascade_members (some cascade) identity removed_at members =
    cascade_loop (length members + 1) (cutoff_of cascade.window_millis removed_at) (identity ∷ [])
      members

abbrev remove_member :
    GroupId → ℕ → Option Cascade → Timestamp → Group → Option MembershipRecord → Result Group
remove_member group_id identity cascade removed_at group none = err (not_in_group identity group_id)
remove_member group_id identity cascade removed_at group (some _) = ok (record group {
  members = cascade_members cascade identity removed_at (remove identity group.members);
})

unfoldable pub remove_from_group : GroupId → ℕ → Option Cascade → Timestamp → Group → Result Group
unfolding cascade_members get remove
remove_from_group group_id identity cascade removed_at group =
    remove_member group_id identity cascade removed_at group (get identity group.members)
