-- ===== src/Governance/State/Ceiling.antt =====
-- The ceiling on `everyone`, after any replay (crates/intranet-governance/src/state.rs).
use distributed_intranet.Base.{
  ◌≡◌, not, refl, sym, ap, subst, ◌∙◌, true, some, List, [], ◌∷◌, arith,
}
use distributed_intranet.Base.Tests.{is_some}
use distributed_intranet.Base.Lists.{Among, here, there}
use distributed_intranet.Base.Order.{text_ord, nat_ord}
use distributed_intranet.Map.{get}
use distributed_intranet.Crypto.{Crypto}
use distributed_intranet.Governance.Capability.{
  ordinary, Capability, CapabilitySet, all, explicit, everyone,
}
use distributed_intranet.Governance.Error.{
  ok, err, guard, guard-eq-ok, >>=-eq-ok, everyone_unrestricted, incoherent_policy, bad_signature,
  unexpected_genesis, missing_parent,
}
use distributed_intranet.Governance.Group.{Group}
use distributed_intranet.Governance.Entry.{LogEntry, EntryBody, verify_signature}
use distributed_intranet.Governance.State.{GovernanceState}
use distributed_intranet.Governance.State.Tier.{tier_of}
use distributed_intranet.Governance.State.Tier.Least.{Governs, tier_of-Governs}
use distributed_intranet.Governance.State.Authorize.{authorize}
use distributed_intranet.Governance.State.Mutate.{
  coherent, check_held, check_everyone_invariant, check_policy_coherence, checked, found, founding,
  is_genesis, genesis, mutate, apply, replay_from, replay,
}

-- What every replayed state satisfies: `everyone` lists its capabilities, none of which confers
-- governance power in this state, and the policy's two settings do not contradict each other.
pub record IsSafe (self : GovernanceState) : Type 0 where
  pub ceiling :
      (group : Group)
      → get everyone self.groups ≡ some group
      → (set : List Capability) × (group.capabilities ≡ explicit set)
        × ((c : Capability) → Among c set → ¬ Governs self [] c)
  pub settings : coherent self.policy.governance_model self.policy.admission_mode ≡ true

check_held_lem :
    (self : GovernanceState) {c : Capability} {set : List Capability}
    → Among c set
    → check_held self set ≡ ok tt
    → tier_of self c ≡ ok ordinary
unfolding check_held
check_held_lem self {c} here h = ground arith
check_held_lem self (there m) h = ground (arith, check_held_lem self m)

held_ordinary :
    (self : GovernanceState) (set : List Capability)
    → check_held self set ≡ ok tt
    → (c : Capability) → Among c set
    → ¬ Governs self [] c
held_ordinary self set h c m gov =
    cc ((tier_of-Governs self c ordinary (check_held_lem self m h)).1 gov)

everyone_checked :
    (self : GovernanceState) (group : Group)
    → get everyone self.groups ≡ some group
    → check_everyone_invariant self ≡ ok tt
    → (set : List Capability) × (group.capabilities ≡ explicit set)
      × ((c : Capability) → Among c set → ¬ Governs self [] c)
everyone_checked self group e h =
    go group.capabilities refl (unfold check_everyone_invariant in rw e at h)
  where
    go :
        (caps : CapabilitySet)
        → group.capabilities ≡ caps
        → elim group.capabilities [
          | all ↦ err everyone_unrestricted
          | explicit set ↦ check_held self set
        ]
          ≡ ok tt
        → (set : List Capability) × (group.capabilities ≡ explicit set)
          × ((c : Capability) → Among c set → ¬ Governs self [] c)
    go all a k = cc
    go (explicit set) a k = (set, a, held_ordinary self set (ground arith))

-- A state that passes the two checks is safe.
pub checked-IsSafe : (self t : GovernanceState) → checked self ≡ ok t → IsSafe t
unfolding checked
checked-IsSafe self t h =
    let (u, everyone_ok, h1) = >>=-eq-ok (check_everyone_invariant self) _ h in
    let (v, settings_ok, h2) = >>=-eq-ok (check_policy_coherence self) _ h1 in
    let same : self ≡ t = cc h2 in
    subst IsSafe same (record {
      ceiling = λ group e. everyone_checked self group e everyone_ok;
      settings = guard-eq-ok _ incoherent_policy settings_ok;
    })

found-IsSafe :
    (entry : LogEntry) (body : EntryBody) {t : GovernanceState} → found entry body ≡ ok t → IsSafe t
found-IsSafe entry (EntryBody.genesis network policy caps) h =
    checked-IsSafe (founding entry network policy caps) _ h
found-IsSafe entry _ h = cc

checked_same : (self t : GovernanceState) → checked self ≡ ok t → self ≡ t
unfolding checked
checked_same self t h =
    let (u, everyone_ok, h1) = >>=-eq-ok (check_everyone_invariant self) _ h in
    let (v, settings_ok, h2) = >>=-eq-ok (check_policy_coherence self) _ h1 in cc h2

module _ (crypto : Crypto) where
  pub genesis-IsSafe :
      (entry : LogEntry) {t : GovernanceState} → genesis crypto entry ≡ ok t → IsSafe t
  unfolding genesis
  genesis-IsSafe entry {t} h =
      let (u, signed, h1) = >>=-eq-ok (guard (verify_signature crypto entry) bad_signature) _ h in
      let (v, parentless, h2) =
        >>=-eq-ok (guard (not (is_some entry.parent)) unexpected_genesis) _ h1 in
      found-IsSafe entry entry.body h2

  -- What a successful step has passed.
  pub apply-eq-ok :
      (self : GovernanceState) (entry : LogEntry) {t : GovernanceState}
      → apply crypto self entry ≡ ok t
      → (verify_signature crypto entry ≡ true)
        × (authorize crypto self entry ≡ ok tt)
        × (mutate crypto self entry entry.body ≡ ok t)
        × (checked t ≡ ok t)
  unfolding apply
  apply-eq-ok self entry {t} h =
      let (u, signed, h1) = >>=-eq-ok (guard (verify_signature crypto entry) bad_signature) _ h in
      let (v, later, h2) =
        >>=-eq-ok (guard (not (is_genesis entry.body)) unexpected_genesis) _ h1 in
      let (w, parent, h3) = >>=-eq-ok (guard (is_some entry.parent) missing_parent) _ h2 in
      let (x, authorized, h4) = >>=-eq-ok (authorize crypto self entry) _ h3 in
      let (next, mutated, h5) = >>=-eq-ok (mutate crypto self entry entry.body) _ h4 in
      let same : next ≡ t = checked_same next t h5 in
      (
        guard-eq-ok _ bad_signature signed,
        authorized,
        subst (λ z. mutate crypto self entry entry.body ≡ ok z) same mutated,
        subst (λ z. checked z ≡ ok z) same (h5 ∙ ap ok (sym same)),
      )

  pub apply-IsSafe :
      (self : GovernanceState) (entry : LogEntry) {t : GovernanceState}
      → apply crypto self entry ≡ ok t
      → IsSafe t
  apply-IsSafe self entry {t} h = checked-IsSafe t t ((apply-eq-ok self entry h).3)

  replay_from-IsSafe :
      (self : GovernanceState) (entries : List LogEntry) {t : GovernanceState}
      → IsSafe self
      → replay_from crypto self entries ≡ ok t
      → IsSafe t
  unfolding replay_from
  replay_from-IsSafe self [] safe h = subst IsSafe (cc h) safe
  replay_from-IsSafe self (entry ∷ rest) safe h =
      let (next, applied, later) = >>=-eq-ok (apply crypto self entry) _ h in
      replay_from-IsSafe next rest (apply-IsSafe self entry applied) later

  -- Whatever entries are replayed, if replay succeeds then `everyone` lists its capabilities and
  -- none of them confers governance power in the final state, directly or through any chain of
  -- groups, and the policy does not combine member votes with automatic admission.
  pub replay-IsSafe :
      (entries : List LogEntry) {t : GovernanceState} → replay crypto entries ≡ ok t → IsSafe t
  unfolding replay
  replay-IsSafe [] h = cc h
  replay-IsSafe (entry ∷ rest) h =
      let (self, founded, later) = >>=-eq-ok (genesis crypto entry) _ h in
      replay_from-IsSafe self rest (genesis-IsSafe entry founded) later
