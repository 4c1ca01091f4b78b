-- ===== src/Ledger/Genuine.antt =====
-- What a ledger holds: signed advertisements of its own network, each under its own node, never
-- replaced by an older one.
use distributed_intranet.Base.{
  ℕ, ◌≡◌, ◌⊎◌, refl, sym, subst, ◌∙◌, true, not, some, List, [], ◌∷◌, arith, inl, inr,
}
use distributed_intranet.Base.Tests.{◌==◌, Bool-cases}
use distributed_intranet.Base.Int.{ℤ, ◌≤ℤ◌}
use distributed_intranet.Base.Order.{nat_ord, ◌=?◌, eq_of_=?}
use distributed_intranet.Map.{get, insert}
use distributed_intranet.Map.Laws.{get-insert}
use distributed_intranet.Map.Every.{Every, Every-insert, Every-remove, Every-retain}
use distributed_intranet.Crypto.{Crypto}
use distributed_intranet.Crypto.Time.{Timestamp}
use distributed_intranet.Governance.State.{GovernanceState, is_member}
use distributed_intranet.Ledger.Advertisement.{
  CapabilityAdvertisement, advertisement_verifies, is_stale,
}
use distributed_intranet.Ledger.Entries.{
  CapabilityLedger, new, newer, insert_advertisement, remove_node, expire, reconcile,
}

-- What changes a ledger.
pub data Operation : Type 0 where
  insertion : GovernanceState → CapabilityAdvertisement → Operation
  removal : ℕ → Operation
  expiry : Timestamp → ℤ → Operation
  reconciliation : GovernanceState → Operation

module _ (crypto : Crypto) where
  unfoldable pub perform : Operation → CapabilityLedger → CapabilityLedger
  unfolding insert_advertisement remove_node expire reconcile
  perform (insertion state a) self = (insert_advertisement crypto state a self).0
  perform (removal node) self = (remove_node node self).0
  perform (expiry now ttl_millis) self = (expire now ttl_millis self).0
  perform (reconciliation state) self = (reconcile state self).0

  unfoldable pub run : List Operation → CapabilityLedger → CapabilityLedger
  unfolding perform
  run [] self = self
  run (op ∷ rest) self = run rest (perform op self)

  abbrev pub Genuine : ℕ → ℕ → CapabilityAdvertisement → Type 0
  Genuine network node a =
      (a.node ≡ node) × ((a.network ≡ network) × (advertisement_verifies crypto a ≡ true))

  abbrev pub IsGenuine : CapabilityLedger → Type 0
  IsGenuine self = Every (Genuine self.network) self.entries

  abbrev with_advertisement : CapabilityAdvertisement → CapabilityLedger → CapabilityLedger
  with_advertisement a self = record self { entries = insert a.node a self.entries }

  -- What an insertion has passed if it changes the ledger.
  abbrev Passed : CapabilityAdvertisement → CapabilityLedger → Type 0
  Passed a self =
      (advertisement_verifies crypto a ≡ true)
      × ((a.network ≡ self.network) × (newer (get a.node self.entries) a ≡ true))

  insertion_outcome :
      (state : GovernanceState) (a : CapabilityAdvertisement) (self : CapabilityLedger)
      → ((insert_advertisement crypto state a self).0 ≡ self)
        ⊎ (((insert_advertisement crypto state a self).0 ≡ with_advertisement a self)
            × Passed a self)
  unfolding insert_advertisement
  insertion_outcome state a self = elim (Bool-cases (advertisement_verifies crypto a)) [
    | inr forged ↦ inl (rw forged refl)
    | inl signed ↦ elim (Bool-cases (a.network == self.network)) [
      | inr foreign ↦ inl (rw (signed, foreign) refl)
      | inl ours ↦ elim (Bool-cases (is_member state a.node)) [
        | inr outside ↦ inl (rw (signed, ours, outside) refl)
        | inl member ↦ elim (Bool-cases (newer (get a.node self.entries) a)) [
          | inr older ↦ inl (rw (signed, ours, member, older) refl)
          | inl fresh ↦ inr (rw (signed, ours, member, fresh) refl, (signed, (ground arith, fresh)))
        ]
      ]
    ]
  ]

  insert_advertisement-IsGenuine :
      (state : GovernanceState) (a : CapabilityAdvertisement) (self : CapabilityLedger)
      → IsGenuine self
      → IsGenuine (insert_advertisement crypto state a self).0
  insert_advertisement-IsGenuine state a self h = elim (insertion_outcome state a self) [
    | inl same ↦ subst IsGenuine (sym same) h
    | inr (changed, passed) ↦
        subst IsGenuine (sym changed) (
          Every-insert (Genuine self.network) a.node a self.entries (refl, (passed.1.0, passed.0))
            h)
  ]

  perform-IsGenuine :
      (op : Operation) (self : CapabilityLedger) → IsGenuine self → IsGenuine (perform op self)
  unfolding perform remove_node expire reconcile
  perform-IsGenuine (insertion state a) self h = insert_advertisement-IsGenuine state a self h
  perform-IsGenuine (removal node) self h = Every-remove (Genuine self.network) node self.entries h
  perform-IsGenuine (expiry now ttl_millis) self h =
      Every-retain (Genuine self.network) (λ _ a. not (is_stale a now ttl_millis)) self.entries h
  perform-IsGenuine (reconciliation state) self h =
      Every-retain (Genuine self.network) (λ node _. is_member state node) self.entries h

  pub run_keeps :
      (ops : List Operation) (self : CapabilityLedger) → IsGenuine self → IsGenuine (run ops self)
  unfolding run
  run_keeps [] self h = h
  run_keeps (op ∷ rest) self h = run_keeps rest (perform op self) (perform-IsGenuine op self h)

  -- After any run on a new ledger, every advertisement that it holds is filed under the node that it
  -- names, has that node's signature, and is for the ledger's network.
  pub run-IsGenuine : (network : ℕ) (ops : List Operation) → IsGenuine (run ops (new network))
  unfolding new
  run-IsGenuine network ops = run_keeps ops (new network) tt

  after_newer :
      (held a : CapabilityAdvertisement)
      → newer (some held) a ≡ true
      → held.issued_at ≤ℤ a.issued_at
  after_newer held a h = ground arith

  -- An insertion leaves a node that the ledger knows with an advertisement at least as recent.
  pub insert_advertisement-newer :
      (state : GovernanceState) (a held : CapabilityAdvertisement) (self : CapabilityLedger)
      (node : ℕ)
      → get node self.entries ≡ some held
      → (b : CapabilityAdvertisement) × ((get node
              (insert_advertisement crypto state a self).0.entries
            ≡ some b)
          × (held.issued_at ≤ℤ b.issued_at))
  insert_advertisement-newer state a held self node h = elim (insertion_outcome state a self) [
    | inl same ↦ (held, (rw same h, omega arith))
    | inr (changed, passed) ↦
        let g = get-insert a.node node a self.entries in
        elim (Bool-cases (a.node =? node)) [
          | inl it ↦
              (let e = eq_of_=? a.node node it in
                let found : get a.node self.entries ≡ some held =
                  subst (λ k. get k self.entries ≡ some held) (sym e) h in
                (a, (rw changed (g ∙ rw it refl), after_newer held a (rw found at passed.1.1))))
          | inr other ↦ (held, (rw changed (g ∙ rw other h), omega arith))
        ]
  ]
