-- ===== src/Governance/State/Tier/Fuel.antt =====
-- Resolving a tier ends: each nested call visits a group that was not visited yet.
use distributed_intranet.Base.{
  ℕ, zero, suc, ◌+◌, ◌≤◌, ◌<◌, ◌≡◌, refl, true, false, Option, none, some, List, [], ◌∷◌, arith,
  inl, inr, fun_ext, sym, ap, ◌∙◌,
}
use distributed_intranet.Base.Tests.{if◌then◌else◌, Bool-cases, Option-cases}
use distributed_intranet.Base.Lists.{length}
use distributed_intranet.Base.Order.{eq_of_=?, =?_refl, text_ord}
use distributed_intranet.Map.{Map, get}
use distributed_intranet.Governance.Capability.{
  GroupId, Tier, ordinary, Capability, manage_membership, extension,
}
use distributed_intranet.Governance.Error.{Result, ok}
use distributed_intranet.Governance.Group.{Group}
use distributed_intranet.Governance.State.{GovernanceState}
use distributed_intranet.Governance.State.Tier.{visited, group_tier, tier_of_inner}

suc_plus : (a b : ℕ) → suc a + b ≡ suc (a + b)
suc_plus a b = omega arith

-- How many groups of the map are not being visited.
abbrev pub unvisited : Map GroupId Group → List GroupId → ℕ
unvisited [] visiting = 0
unvisited ((g, _) ∷ groups) visiting =
    let rest = unvisited groups visiting in if visited g visiting then rest else suc rest

pub unvisited-le-length : (groups : Map GroupId Group) → unvisited groups [] ≤ length groups
unvisited-le-length [] = omega arith
unvisited-le-length ((g, _) ∷ groups) = omega (arith, unvisited-le-length groups)

unvisited_mono :
    (groups : Map GroupId Group) (g : GroupId) (visiting : List GroupId)
    → unvisited groups (g ∷ visiting) ≤ unvisited groups visiting
unvisited_mono [] g visiting = omega arith
unvisited_mono ((h, _) ∷ groups) g visiting = ground (arith, unvisited_mono groups g visiting)

-- Visiting a group of the map leaves fewer.
pub unvisited_lt :
    (groups : Map GroupId Group) (g : GroupId) {target : Group} (visiting : List GroupId)
    → get g groups ≡ some target
    → visited g visiting ≡ false
    → unvisited groups (g ∷ visiting) < unvisited groups visiting
unfolding get
unvisited_lt [] g visiting e h = cc
unvisited_lt ((j, w) ∷ groups) g {target} visiting e h = ground (
  arith,
  unvisited_mono groups g visiting,
  unvisited_lt groups g {target = target} visiting,
  eq_of_=? j g,
  =?_refl g,
)

group_tier_unknown :
    (r r' : Capability → Result Tier) (g : GroupId) (o : Option Group)
    → o ≡ none
    → group_tier r g o ≡ group_tier r' g o
unfolding group_tier
group_tier_unknown r r' g o e = rw e refl

module _ (self : GovernanceState) (fuel : ℕ) (g : GroupId) (visiting : List GroupId) where
  -- A group that is being visited already adds nothing.
  pub tier_of_inner_again :
      visited g visiting ≡ true
      → tier_of_inner self (suc fuel) (manage_membership g) visiting ≡ ok ordinary
  unfolding tier_of_inner
  tier_of_inner_again h = rw h refl

  pub tier_of_inner_fresh :
      visited g visiting ≡ false
      → tier_of_inner self (suc fuel) (manage_membership g) visiting
        ≡ group_tier (λ c. tier_of_inner self fuel c (g ∷ visiting)) g (get g self.groups)
  unfolding tier_of_inner
  tier_of_inner_fresh h = rw h refl

module _ (self : GovernanceState) where
  -- Above the number of groups that are not visited, fuel makes no difference: the result is that
  -- of the unbounded recursion.
  pub tier_of_inner_enough :
      (fuel more : ℕ) (c : Capability) (visiting : List GroupId)
      → unvisited self.groups visiting < fuel
      → tier_of_inner self (fuel + more) c visiting ≡ tier_of_inner self fuel c visiting
  unfolding tier_of_inner
  tier_of_inner_enough zero more c visiting h = elim h [ ]
  tier_of_inner_enough (suc fuel) more (manage_membership g) visiting h =
      rw suc_plus (elim (Bool-cases (visited g visiting)) [
        | inl again ↦
            tier_of_inner_again self (fuel + more) g visiting again
            ∙ sym (tier_of_inner_again self fuel g visiting again)
        | inr fresh ↦
            tier_of_inner_fresh self (fuel + more) g visiting fresh
            ∙ elim (Option-cases (get g self.groups)) [
              | inl unknown ↦ group_tier_unknown _ _ g (get g self.groups) unknown
              | inr (target, found) ↦
                  ap (λ r. group_tier r g (get g self.groups))
                    (fun_ext λ c.
                      tier_of_inner_enough fuel more c (g ∷ visiting)
                        (omega (arith, unvisited_lt self.groups g visiting found fresh)))
            ]
            ∙ sym (tier_of_inner_fresh self fuel g visiting fresh)
      ])
  tier_of_inner_enough (suc fuel) more (extension name) visiting h = rw suc_plus refl
  tier_of_inner_enough (suc fuel) more _ visiting h = rw suc_plus refl
