-- ===== src/Governance/State/SameTiers.antt =====
-- The checks of a candidate state look at its policy and at what its groups may do, not at who is
-- in them (crates/intranet-governance/src/state.rs).
use distributed_intranet.Base.{
  ℕ, zero, suc, ◌+◌, ◌≡◌, refl, sym, ap, ◌∙◌, fun_ext, Option, none, some, List, [], ◌∷◌, inl, inr,
}
use distributed_intranet.Base.Tests.{if◌then◌else◌, Bool-cases}
use distributed_intranet.Base.Lists.{length}
use distributed_intranet.Base.Order.{◌=?◌, eq_of_=?, text_ord}
use distributed_intranet.Map.{get}
use distributed_intranet.Map.Laws.{get-insert, length-insert}
use distributed_intranet.Governance.Capability.{
  GroupId, Tier, ordinary, governance, Capability, CapabilitySet, everyone, all, explicit,
  approve_node, revoke_node, define_group, define_policy, define_content_policy, moderate_content,
  audit_reputation, read_content, manage_membership, publish, extension,
}
use distributed_intranet.Governance.Error.{
  Result, ok, err, guard, ◌>>=◌, >>=-eq-ok, everyone_unrestricted, everyone_governance_tier,
  incoherent_policy,
}
use distributed_intranet.Governance.Group.{Group}
use distributed_intranet.Governance.State.{GovernanceState}
use distributed_intranet.Governance.State.Tier.{visited, group_tier, tier_of_inner, tier_of}
use distributed_intranet.Governance.State.Mutate.{
  coherent, check_held, check_everyone, check_everyone_invariant, check_policy_coherence, checked,
  put_group,
}

abbrev pub powers : Option Group → Option CapabilitySet
powers none = none
powers (some group) = some group.capabilities

pub record IsAlike (a b : GovernanceState) : Type 0 where
  pub policies : a.policy ≡ b.policy
  pub sizes : length a.groups ≡ length b.groups
  pub abilities : (g : GroupId) → powers (get g a.groups) ≡ powers (get g b.groups)

group_tier_alike :
    (resolve : Capability → Result Tier) (g : GroupId) (o p : Option Group)
    → powers o ≡ powers p
    → group_tier resolve g o ≡ group_tier resolve g p
unfolding group_tier
group_tier_alike resolve g none none h = refl
group_tier_alike resolve g none (some y) h = cc
group_tier_alike resolve g (some x) none h = cc
group_tier_alike resolve g (some x) (some y) h =
    let same : x.capabilities ≡ y.capabilities = cc in rw same refl

check_held_alike :
    (a b : GovernanceState) (set : List Capability)
    → ((c : Capability) → tier_of a c ≡ tier_of b c)
    → check_held a set ≡ check_held b set
unfolding check_held
check_held_alike a b [] h = refl
check_held_alike a b (c ∷ set) h = rw (h c) (
    ap
      (λ (r : Result (Unit {0})). tier_of b c >>= λ tier. elim tier [
        | governance ↦ err (everyone_governance_tier c)
        | ordinary ↦ r
      ])
      (check_held_alike a b set h))

module _ (a b : GovernanceState) (alike : IsAlike a b) where
  tier_of_inner_alike :
      (fuel : ℕ) (c : Capability) (visiting : List GroupId)
      → tier_of_inner a fuel c visiting ≡ tier_of_inner b fuel c visiting
  unfolding tier_of_inner
  tier_of_inner_alike zero c visiting = refl
  tier_of_inner_alike (suc fuel) (extension name) visiting = rw alike.policies refl
  tier_of_inner_alike (suc fuel) (manage_membership g) visiting =
      let deeper : (λ c. tier_of_inner a fuel c (g ∷ visiting))
          ≡ (λ c. tier_of_inner b fuel c (g ∷ visiting)) =
        fun_ext (λ c. tier_of_inner_alike fuel c (g ∷ visiting)) in
      let step : group_tier (λ c. tier_of_inner a fuel c (g ∷ visiting)) g (get g a.groups)
          ≡ group_tier (λ c. tier_of_inner b fuel c (g ∷ visiting)) g (get g b.groups) =
        rw deeper (
          group_tier_alike (λ c. tier_of_inner b fuel c (g ∷ visiting)) g (get g a.groups)
            (get g b.groups) (alike.abilities g)) in
      ap (λ t. if visited g visiting then ok ordinary else t) step
  tier_of_inner_alike (suc fuel) approve_node visiting = refl
  tier_of_inner_alike (suc fuel) revoke_node visiting = refl
  tier_of_inner_alike (suc fuel) define_group visiting = refl
  tier_of_inner_alike (suc fuel) define_policy visiting = refl
  tier_of_inner_alike (suc fuel) define_content_policy visiting = refl
  tier_of_inner_alike (suc fuel) moderate_content visiting = refl
  tier_of_inner_alike (suc fuel) audit_reputation visiting = refl
  tier_of_inner_alike (suc fuel) read_content visiting = refl
  tier_of_inner_alike (suc fuel) (publish kind) visiting = refl

  tier_of_alike : (c : Capability) → tier_of a c ≡ tier_of b c
  unfolding tier_of
  tier_of_alike c = rw alike.sizes (tier_of_inner_alike (length b.groups + 1) c [])

  check_everyone_alike :
      (o p : Option Group) → powers o ≡ powers p → check_everyone a o ≡ check_everyone b p
  check_everyone_alike none none h = refl
  check_everyone_alike none (some y) h = cc
  check_everyone_alike (some x) none h = cc
  check_everyone_alike (some x) (some y) h =
      let same : x.capabilities ≡ y.capabilities = cc in rw same (check_capabilities y.capabilities)
    where
      check_capabilities :
          (s : CapabilitySet)
          → elim s [ all ↦ err everyone_unrestricted | explicit set ↦ check_held a set ]
            ≡ elim s [ all ↦ err everyone_unrestricted | explicit set ↦ check_held b set ]
      check_capabilities all = refl
      check_capabilities (explicit set) = check_held_alike a b set tier_of_alike

  -- A state alike to one that passes the checks passes them.
  pub checked_alike : checked a ≡ ok a → checked b ≡ ok b
  unfolding checked check_everyone_invariant check_policy_coherence
  checked_alike h =
      let (u, fine, h1) = >>=-eq-ok (check_everyone_invariant a) _ h in
      let (v, settled, h2) = >>=-eq-ok (check_policy_coherence a) _ h1 in
      let fine_too : check_everyone b (get everyone b.groups) ≡ ok u =
        sym (
          check_everyone_alike (get everyone a.groups) (get everyone b.groups)
            (alike.abilities everyone))
        ∙ fine in
      let settled_too : guard (coherent b.policy.governance_model b.policy.admission_mode)
            incoherent_policy
          ≡ ok v =
        rw (← alike.policies) settled in
      rw (fine_too, settled_too) refl

-- A group put in the place of one that may do the same.
pub put_group-IsAlike :
    (self : GovernanceState) (group : GroupId) (old new : Group)
    → get group self.groups ≡ some old
    → new.capabilities ≡ old.capabilities
    → IsAlike self (put_group self group new)
put_group-IsAlike self group old new found same = record {
  policies = refl;
  sizes = rw (length-insert group new self.groups, found) refl;
  abilities = λ g.
      let looked = get-insert group g new self.groups in
      elim (Bool-cases (group =? g)) [
        | inl it ↦ (let e = eq_of_=? group g it in rw (looked, it, ← e, found) (ap some (sym same)))
        | inr other ↦ rw (looked, other) refl
      ];
}
