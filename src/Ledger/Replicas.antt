-- ===== src/Ledger/Replicas.antt =====
-- Who is chosen to hold replicas: members who offer storage.
use distributed_intranet.Base.{
  ℕ, zero, suc, ◌<◌, ◌≡◌, sym, subst, Bool, true, List, [], ◌∷◌, map, arith, inl, inr,
}
use distributed_intranet.Base.Tests.{ltb, Bool-cases}
use distributed_intranet.Base.Lists.{All, Among, here, there, filter, take}
use distributed_intranet.Map.{Map, values, retain}
use distributed_intranet.Map.Every.{Every, Every-retain, Every-retained}
use distributed_intranet.Crypto.{Crypto}
use distributed_intranet.Governance.State.{GovernanceState, is_member}
use distributed_intranet.Ledger.Advertisement.{CapabilityAdvertisement}
use distributed_intranet.Ledger.Placement.{
  WeightField, storage_offered, weight_of, ScoredCandidate, before, settle, sort_scored, score_all,
  rank, select,
}
use distributed_intranet.Ledger.Entries.{
  CapabilityLedger, reconcile, storage_candidates, select_replicas,
}
use distributed_intranet.Ledger.Genuine.{IsGenuine, Genuine}

module _ (S : ℕ → Type 0) where
  abbrev ByNode : ScoredCandidate → Type 0
  ByNode c = S c.node

  settle-All :
      (c : ScoredCandidate) (l : List ScoredCandidate)
      → S c.node
      → All ByNode l
      → All ByNode (settle c l)
  unfolding settle
  settle-All c [] p h = (p, tt)
  settle-All c (d ∷ l) p h = elim (Bool-cases (before c d)) [
    | inl first ↦ rw first (p, h)
    | inr later ↦ rw later (h.0, settle-All c l p h.1)
  ]

  sort_scored-All : (l : List ScoredCandidate) → All ByNode l → All ByNode (sort_scored l)
  unfolding sort_scored
  sort_scored-All [] h = tt
  sort_scored-All (c ∷ l) h = settle-All c (sort_scored l) h.0 (sort_scored-All l h.1)

  taken-All :
      (n : ℕ) (l : List ScoredCandidate) → All ByNode l → All S (map (λ c. c.node) (take n l))
  taken-All zero l h = tt
  taken-All (suc n) [] h = tt
  taken-All (suc n) (c ∷ l) h = (h.0, taken-All n l h.1)

  module _ (crypto : Crypto) (key : List ℕ) (field : WeightField) where
    -- The advertisement makes its node eligible.
    abbrev Eligible : CapabilityAdvertisement → Type 0
    Eligible a = ltb 0 (weight_of field a) ≡ true → S a.node

    score_all-All :
        (l : List CapabilityAdvertisement)
        → All Eligible l
        → All ByNode (score_all crypto key field l)
    unfolding score_all
    score_all-All [] h = tt
    score_all-All (a ∷ l) h = elim (Bool-cases (ltb 0 (weight_of field a))) [
      | inl offers ↦ rw offers (h.0 offers, score_all-All l h.1)
      | inr nothing ↦ rw nothing (score_all-All l h.1)
    ]

    pub select-All :
        (n : ℕ) (l : List CapabilityAdvertisement)
        → All Eligible l
        → All S (select crypto key field n l)
    unfolding select rank
    select-All n l h = taken-All n _ (sort_scored-All _ (score_all-All l h))

module _ (crypto : Crypto) (state : GovernanceState) (self : CapabilityLedger) where
  -- The node is a member, and the ledger has an advertisement of it that offers storage.
  abbrev pub OffersStorage : Map ℕ CapabilityAdvertisement → ℕ → Type 0
  OffersStorage entries node =
      (is_member state node ≡ true)
      × ((a : CapabilityAdvertisement) × (Among (node, a) entries
            × ((a.node ≡ node) × (0 < a.storage_offered))))

  abbrev FromEntry : Map ℕ CapabilityAdvertisement → CapabilityAdvertisement → Type 0
  FromEntry entries a = ltb 0 a.storage_offered ≡ true → OffersStorage entries a.node

  filter-All :
      (P : CapabilityAdvertisement → Type 0) (test : CapabilityAdvertisement → Bool)
      (l : List CapabilityAdvertisement)
      → All P l
      → All P (filter test l)
  filter-All P test [] h = tt
  filter-All P test (a ∷ l) h = elim (Bool-cases (test a)) [
    | inl stays ↦ rw stays (h.0, filter-All P test l h.1)
    | inr goes ↦ rw goes (filter-All P test l h.1)
  ]

  entries-FromEntry :
      (all m : Map ℕ CapabilityAdvertisement)
      → ((k : ℕ) (a : CapabilityAdvertisement) → Among (k, a) m → Among (k, a) all)
      → Every (Genuine crypto self.network) m
      → Every (λ k _. is_member state k ≡ true) m
      → All (FromEntry all) (values m)
  entries-FromEntry all [] within g h = tt
  entries-FromEntry all ((k, a) ∷ m) within g h = (
    λ offers.
        subst (λ n. OffersStorage all n) (sym g.0.0)
          (h.0, (a, (within k a here, (g.0.0, ground arith)))),
    entries-FromEntry all m (λ j b i. within j b (there i)) g.1 h.1,
  )

  -- After a reconciliation with a governance state, whoever is selected to hold replicas from a ledger
  -- of genuine advertisements is a member in that state and has an advertisement in it that offers
  -- storage.
  pub replicas-OffersStorage :
      IsGenuine crypto self
      → (cid : List ℕ) (count : ℕ)
      → All
          (OffersStorage (reconcile state self).0.entries)
          (select_replicas crypto (reconcile state self).0 cid count)
  unfolding select_replicas storage_candidates reconcile weight_of
  replicas-OffersStorage genuine cid count =
      let members = retain (λ node _. is_member state node) self.entries in
      select-All (OffersStorage members) crypto cid storage_offered count
        (filter (λ a. ltb 0 a.storage_offered) (values members))
        (filter-All (FromEntry members) (λ a. ltb 0 a.storage_offered) (values members)
          (entries-FromEntry members members (λ k a i. i)
            (Every-retain (Genuine crypto self.network) (λ node _. is_member state node)
              self.entries genuine)
            (Every-retained (λ node _. is_member state node) self.entries)))
