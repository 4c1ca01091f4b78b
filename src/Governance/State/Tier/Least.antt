-- ===== src/Governance/State/Tier/Least.antt =====
-- A tier is `governance` exactly when a chain of memberships that can be managed leads to
-- governance power.
use distributed_intranet.Base.{
  ℕ, zero, suc, ◌<◌, ◌≡◌, refl, ◌↔◌, ◌⊎◌, ◌≢◌, ◌∙◌, false, Option, none, some, List, [], ◌∷◌, arith,
  inl, inr, subst, sym,
}
use distributed_intranet.Base.Tests.{Bool-cases}
use distributed_intranet.Base.Lists.{Among, here, there}
use distributed_intranet.Base.Order.{◌=?◌, eq_of_=?, text_ord}
use distributed_intranet.Map.{get}
use distributed_intranet.Governance.Capability.{
  GroupId, Tier, ordinary, governance, Capability, CapabilitySet, approve_node, all, explicit,
  manage_membership, extension, intrinsic_tier,
}
use distributed_intranet.Governance.Policy.{extension_tier}
use distributed_intranet.Governance.Error.{Result, ok, err, ◌>>=◌}
use distributed_intranet.Governance.Group.{Group}
use distributed_intranet.Governance.State.{GovernanceState}
use distributed_intranet.Governance.State.Tier.{visited, scan, group_tier, tier_of_inner, tier_of}
use distributed_intranet.Governance.State.Tier.Fuel.{
  unvisited, unvisited_lt, unvisited-le-length, tier_of_inner_again, tier_of_inner_fresh,
}

-- Why a capability confers governance power, by a chain of groups none of which is in `avoid`.
pub data Governs (self : GovernanceState) (avoid : List GroupId) : Capability → Type 0 where
  intrinsic : {c : Capability} → intrinsic_tier c ≡ some governance → Governs self avoid c
  registered :
      {name : List ℕ}
      → extension_tier self.policy name ≡ some governance
      → Governs self avoid (extension name)
  manages_all :
      {g : GroupId} {target : Group}
      → visited g avoid ≡ false
      → get g self.groups ≡ some target
      → target.capabilities ≡ all
      → Governs self avoid (manage_membership g)
  manages :
      {g : GroupId} {target : Group} {set : List Capability} {held : Capability}
      → visited g avoid ≡ false
      → get g self.groups ≡ some target
      → target.capabilities ≡ explicit set
      → Among held set
      → Governs self avoid held
      → Governs self avoid (manage_membership g)

-- The last time that a chain passes `g`: what is held there leads on without `g`.
data Passes (self : GovernanceState) (avoid : List GroupId) (g : GroupId) : Type 0 where
  at_all :
      {target : Group}
      → get g self.groups ≡ some target
      → target.capabilities ≡ all
      → Passes self avoid g
  at_held :
      {target : Group} {set : List Capability} {held : Capability}
      → get g self.groups ≡ some target
      → target.capabilities ≡ explicit set
      → Among held set
      → Governs self (g ∷ avoid) held
      → Passes self avoid g

module _ (self : GovernanceState) (avoid : List GroupId) (g : GroupId) where
  -- A chain avoids `g` altogether, or has a last passage.
  split : {c : Capability} → Governs self avoid c → Governs self (g ∷ avoid) c ⊎ Passes self avoid g
  split (intrinsic e) = inl (intrinsic e)
  split (registered e) = inl (registered e)
  split (manages_all {g = h} {target = t} v e a) = elim (Bool-cases (g =? h)) [
    | inl same ↦
        inr (at_all (subst (λ x. get x self.groups ≡ some t) (sym (eq_of_=? g h same)) e) a)
    | inr differs ↦ inl (manages_all (ground arith) e a)
  ]
  split (manages {g = h} {target = t} v e a m sub) = elim (split sub) [
    | inr passes ↦ inr passes
    | inl beyond ↦ elim (Bool-cases (g =? h)) [
      | inl same ↦
          inr (
            at_held (subst (λ x. get x self.groups ≡ some t) (sym (eq_of_=? g h same)) e) a m
              beyond)
      | inr differs ↦ inl (manages (ground arith) e a m beyond)
    ]
  ]

-- What avoids more, avoids less.
widen :
    {self : GovernanceState} {avoid : List GroupId} {g : GroupId} {c : Capability}
    → Governs self (g ∷ avoid) c
    → Governs self avoid c
widen (intrinsic e) = intrinsic e
widen (registered e) = registered e
widen (manages_all v e a) = manages_all (ground arith) e a
widen (manages v e a m sub) = manages (ground arith) e a m (widen sub)

scan_governance :
    (resolve : Capability → Result Tier) (set : List Capability)
    → scan resolve set ≡ ok governance
    → (held : Capability) × Among held set × (resolve held ≡ ok governance)
unfolding scan
scan_governance resolve [] h = cc
scan_governance resolve (c ∷ set) h = go (resolve c) refl (scan_governance resolve set) h
  where
    go :
        (r : Result Tier)
        → resolve c ≡ r
        → (scan resolve set ≡ ok governance
            → (held : Capability) × Among held set × (resolve held ≡ ok governance))
        → (r >>= λ t. elim t [ governance ↦ ok governance | ordinary ↦ scan resolve set ])
          ≡ ok governance
        → (held : Capability) × Among held (c ∷ set) × (resolve held ≡ ok governance)
    go (ok governance) e later k = (c, here, e)
    go (ok ordinary) e later k = let (held, m, q) = later k in (held, there m, q)
    go (err x) e later k = cc

scan_ordinary :
    (resolve : Capability → Result Tier) {held : Capability} {set : List Capability}
    → Among held set
    → scan resolve set ≡ ok ordinary
    → resolve held ≡ ok ordinary
unfolding scan
scan_ordinary resolve {held} here h = ground arith
scan_ordinary resolve (there {x = c} {xs = set} m) h = ground (arith, scan_ordinary resolve m)

group_tier_governance :
    (resolve : Capability → Result Tier) (g : GroupId) (o : Option Group)
    → group_tier resolve g o ≡ ok governance
    → (target : Group) × (o ≡ some target)
      × ((target.capabilities ≡ all)
          ⊎ ((set : List Capability) × (held : Capability) × (target.capabilities ≡ explicit set)
              × Among held set
              × (resolve held ≡ ok governance)))
unfolding group_tier
group_tier_governance resolve g none h = cc
group_tier_governance resolve g (some target) h = go target.capabilities refl h
  where
    go :
        (caps : CapabilitySet)
        → target.capabilities ≡ caps
        → elim caps [ all ↦ ok governance | explicit set ↦ scan resolve set ] ≡ ok governance
        → (t : Group) × (some target ≡ some t)
          × ((t.capabilities ≡ all)
              ⊎ ((set : List Capability) × (held : Capability) × (t.capabilities ≡ explicit set)
                  × Among held set
                  × (resolve held ≡ ok governance)))
    go all e k = (target, refl, inl e)
    go (explicit set) e k =
        let (held, m, q) = scan_governance resolve set k in (target, refl, inr (set, held, e, m, q))

group_tier_ordinary :
    (resolve : Capability → Result Tier) (g : GroupId) (target : Group)
    → group_tier resolve g (some target) ≡ ok ordinary
    → (target.capabilities ≢ all)
      × ((set : List Capability) (held : Capability)
          → target.capabilities ≡ explicit set
          → Among held set
          → resolve held ≡ ok ordinary)
unfolding group_tier
group_tier_ordinary resolve g target h =
    (λ e. ground arith, λ set held e m. scan_ordinary resolve m (ground arith))

module _ (self : GovernanceState) where
  sound :
      (fuel : ℕ) (c : Capability) (avoid : List GroupId)
      → tier_of_inner self fuel c avoid ≡ ok governance
      → Governs self avoid c
  unfolding tier_of_inner
  sound zero c avoid h = cc
  sound (suc fuel) (extension name) avoid h = registered (ground arith)
  sound (suc fuel) (manage_membership g) avoid h = elim (Bool-cases (visited g avoid)) [
    | inl again ↦ cc (tier_of_inner_again self fuel g avoid again)
    | inr fresh ↦
        let (target, found, how) =
          group_tier_governance _ g (get g self.groups)
            (sym (tier_of_inner_fresh self fuel g avoid fresh) ∙ h) in
        elim how [
          | inl whole ↦ manages_all fresh found whole
          | inr (set, held, e, m, q) ↦
              manages fresh found e m (widen (sound fuel held (g ∷ avoid) q))
        ]
  ]
  sound (suc fuel) approve_node avoid h = intrinsic (ground arith)
  sound (suc fuel) _ avoid h = intrinsic (ground arith)

  intrinsic_resolves :
      (fuel : ℕ) (c : Capability) (avoid : List GroupId)
      → intrinsic_tier c ≡ some governance
      → tier_of_inner self (suc fuel) c avoid ≡ ok governance
  unfolding tier_of_inner
  intrinsic_resolves fuel (extension name) avoid h = cc
  intrinsic_resolves fuel (manage_membership g) avoid h = cc
  intrinsic_resolves fuel approve_node avoid h = refl
  intrinsic_resolves fuel _ avoid h = ground arith

  registered_resolves :
      (fuel : ℕ) (name : List ℕ) (avoid : List GroupId)
      → extension_tier self.policy name ≡ some governance
      → tier_of_inner self (suc fuel) (extension name) avoid ≡ ok governance
  unfolding tier_of_inner
  registered_resolves fuel name avoid h = rw h refl

  -- A last passage of `g` contradicts the scan of what `g` holds.
  refute :
      (fuel : ℕ) (g : GroupId) (avoid : List GroupId)
      → ((held : Capability)
          → tier_of_inner self fuel held (g ∷ avoid) ≡ ok ordinary
          → Governs self (g ∷ avoid) held
          → ⊥)
      → group_tier (λ c. tier_of_inner self fuel c (g ∷ avoid)) g (get g self.groups) ≡ ok ordinary
      → Passes self avoid g
      → ⊥
  refute fuel g avoid rec h (at_all {target = t} e a) = (group_tier_ordinary _ g t (rw e at h)).0 a
  refute fuel g avoid rec h (at_held {target = t} {set = set} {held = held} e a m beyond) =
      rec held ((group_tier_ordinary _ g t (rw e at h)).1 set held a m) beyond

  complete :
      (fuel : ℕ) (c : Capability) (avoid : List GroupId)
      → unvisited self.groups avoid < fuel
      → tier_of_inner self fuel c avoid ≡ ok ordinary
      → Governs self avoid c
      → ⊥
  complete zero c avoid enough h gov = elim enough [ ]
  complete (suc fuel) c avoid enough h (intrinsic e) = cc (intrinsic_resolves fuel c avoid e)
  complete (suc fuel) c avoid enough h (registered {name = n} e) =
      cc (registered_resolves fuel n avoid e)
  complete (suc fuel) c avoid enough h (manages_all {g = g} v e a) =
      refute fuel g avoid
        (λ held q gov.
          complete fuel held (g ∷ avoid) (omega (arith, unvisited_lt self.groups g avoid e v)) q
            gov)
        (sym (tier_of_inner_fresh self fuel g avoid v) ∙ h) (at_all e a)
  complete (suc fuel) c avoid enough h (manages {g = g} v e a m sub) =
      refute fuel g avoid
        (λ held q gov.
          complete fuel held (g ∷ avoid) (omega (arith, unvisited_lt self.groups g avoid e v)) q
            gov)
        (sym (tier_of_inner_fresh self fuel g avoid v) ∙ h)
        (elim (split self avoid g sub) [ inl beyond ↦ at_held e a m beyond | inr passes ↦ passes ])

-- Whenever a tier resolves, it is `governance` exactly if the capability confers governance power
-- through some chain of groups, each held capability managing the next group. Cycles of management
-- neither hide such a chain nor make one up.
pub tier_of-Governs :
    (self : GovernanceState) (c : Capability) (tier : Tier)
    → tier_of self c ≡ ok tier
    → (tier ≡ governance) ↔ Governs self [] c
unfolding tier_of
tier_of-Governs self c governance h = (λ _. sound self _ c [] h, λ _. refl)
tier_of-Governs self c ordinary h = (
  λ e. cc,
  λ gov. absurd (complete self _ c [] (omega (arith, unvisited-le-length self.groups)) h gov),
)
