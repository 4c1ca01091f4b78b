-- ===== src/Governance/State/Tier.antt =====
-- `tier_of` of crates/intranet-governance/src/state.rs. The set of groups being visited is the
-- stack of the calls in progress: each call takes its group off again before it returns `Ok`, and
-- an `Err` leaves all of them, so it is an argument here.
pub mod Fuel
pub mod Least
use distributed_intranet.Base.{ℕ, zero, suc, ◌+◌, Bool, Option, none, some, List, [], ◌∷◌}
use distributed_intranet.Base.Tests.{if◌then◌else◌}
use distributed_intranet.Base.Lists.{any, length}
use distributed_intranet.Base.Order.{◌=?◌, text_ord}
use distributed_intranet.Map.{get}
use distributed_intranet.Governance.Capability.{
  GroupId, Tier, ordinary, governance, Capability, CapabilitySet, all, explicit, manage_membership,
  extension, intrinsic_tier,
}
use distributed_intranet.Governance.Policy.{extension_tier}
use distributed_intranet.Governance.Error.{
  Result, ok, err, ◌>>=◌, unregistered_extension_capability, unknown_group,
}
use distributed_intranet.Governance.Group.{Group}
use distributed_intranet.Governance.State.{GovernanceState}

abbrev pub visited : GroupId → List GroupId → Bool
visited g visiting = any (λ h. h =? g) visiting

-- `for held in set`, which breaks off at the first governance-tier capability
unfoldable pub scan : (Capability → Result Tier) → List Capability → Result Tier
scan resolve [] = ok ordinary
scan resolve (held ∷ rest) =
    resolve held >>= λ tier. elim tier [ governance ↦ ok governance | ordinary ↦ scan resolve rest ]

unfoldable pub group_tier : (Capability → Result Tier) → GroupId → Option Group → Result Tier
unfolding scan
group_tier resolve g none = err (unknown_group g)
group_tier resolve g (some target) = elim target.capabilities [
  | all ↦ ok governance
  | explicit set ↦ scan resolve set
]

abbrev pub or_unregistered : Capability → Option Tier → Result Tier
or_unregistered c (some tier) = ok tier
or_unregistered (extension name) none = err (unregistered_extension_capability name)
or_unregistered c none = ok ordinary

-- The calls nest no deeper than there are groups; `Tier.Fuel` shows that the fuel does not matter
-- beyond that.
unfoldable pub tier_of_inner : GovernanceState → ℕ → Capability → List GroupId → Result Tier
unfolding group_tier get intrinsic_tier extension_tier
tier_of_inner self zero capability visiting = ok ordinary
tier_of_inner self (suc fuel) (extension name) visiting =
    or_unregistered (extension name) (extension_tier self.policy name)
tier_of_inner self (suc fuel) (manage_membership group) visiting =
    if visited group visiting
    then ok ordinary
    else group_tier (λ c. tier_of_inner self fuel c (group ∷ visiting)) group
        (get group self.groups)
tier_of_inner self (suc fuel) capability visiting =
    or_unregistered capability (intrinsic_tier capability)

unfoldable pub tier_of : GovernanceState → Capability → Result Tier
unfolding tier_of_inner
tier_of self capability = tier_of_inner self (length self.groups + 1) capability []
