-- ===== src/Governance/State/Revocation.antt =====
-- A revoked device never regains authority (crates/intranet-governance/src/state.rs).
use distributed_intranet.Base.{ℕ, ◌≡◌, refl, subst, true, false, List, [], ◌∷◌, arith}
use distributed_intranet.Base.Order.{nat_ord}
use distributed_intranet.Map.Laws.{get-insert}
use distributed_intranet.Crypto.{Crypto}
use distributed_intranet.Governance.Error.{ok, >>=-eq-ok}
use distributed_intranet.Governance.Entry.{LogEntry, EntryBody}
use distributed_intranet.Governance.State.{GovernanceState, in_set, device_is_authorized}
use distributed_intranet.Governance.State.Mutate.{mutate, apply, replay_from}
use distributed_intranet.Governance.State.Ceiling.{apply-eq-ok}

module _ (crypto : Crypto) (device : ℕ) where
  mutate-revoked :
      (self : GovernanceState) (entry : LogEntry) (body : EntryBody) {t : GovernanceState}
      → mutate crypto self entry body ≡ ok t
      → in_set device self.revoked_devices ≡ true
      → in_set device t.revoked_devices ≡ true
  unfolding mutate
  mutate-revoked self entry (EntryBody.genesis _ _ _) h d = cc
  mutate-revoked self entry (EntryBody.device_revocation r) h d =
      ground (arith, get-insert r.device device tt self.revoked_devices)
  mutate-revoked self entry _ h d = ground arith

  replay_from-revoked :
      (self : GovernanceState) (entries : List LogEntry) {t : GovernanceState}
      → replay_from crypto self entries ≡ ok t
      → in_set device self.revoked_devices ≡ true
      → in_set device t.revoked_devices ≡ true
  unfolding replay_from
  replay_from-revoked self [] {t} h d =
      subst (λ (s : GovernanceState). in_set device s.revoked_devices ≡ true) {x = self} {y = t}
        (cc h) d
  replay_from-revoked self (entry ∷ rest) h d =
      let (next, applied, later) = >>=-eq-ok (apply crypto self entry) _ h in
      let mutated = (apply-eq-ok crypto self entry applied).2 in
      replay_from-revoked next rest later (mutate-revoked self entry entry.body mutated d)

  unauthorized_when_revoked :
      (t : GovernanceState) (identity : ℕ)
      → in_set device t.revoked_devices ≡ true
      → device_is_authorized t device identity ≡ false
  unfolding device_is_authorized
  unauthorized_when_revoked t identity d = rw d refl

-- Once a device is revoked, no later entries, its own enrollment again among them, give it
-- authority for any identity.
pub revoked_forever :
    (crypto : Crypto) (device identity : ℕ) (self : GovernanceState) (entries : List LogEntry)
    (t : GovernanceState)
    → in_set device self.revoked_devices ≡ true
    → replay_from crypto self entries ≡ ok t
    → device_is_authorized t device identity ≡ false
revoked_forever crypto device identity self entries t d h =
    unauthorized_when_revoked crypto device t identity
      (replay_from-revoked crypto device self entries h d)
