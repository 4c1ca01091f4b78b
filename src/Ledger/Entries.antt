-- ===== src/Ledger/Entries.antt =====
-- crates/intranet-ledger/src/lib.rs: the ledger of one network. A method on `&mut self` returns the
-- ledger after it, with its answer if it has one; a refused insertion leaves the ledger as it was.
use distributed_intranet.Base.{ℕ, ◌-◌, Bool, true, not, Option, none, some, List, [], ◌∷◌}
use distributed_intranet.Base.Tests.{ltb, ◌==◌, if◌then◌else◌}
use distributed_intranet.Base.Lists.{length, filter, take}
use distributed_intranet.Base.Int.{ℤ, leb_ℤ, ltb_ℤ}
use distributed_intranet.Base.Order.{nat_ord}
use distributed_intranet.Map.{Map, get, insert, remove, retain, values}
use distributed_intranet.Crypto.{Crypto}
use distributed_intranet.Crypto.Time.{Timestamp}
use distributed_intranet.Governance.State.{GovernanceState, is_member}
use distributed_intranet.Ledger.Advertisement.{
  CapabilityAdvertisement, advertisement_verifies, is_stale,
}
use distributed_intranet.Ledger.Placement.{storage_offered, bandwidth_up, select}

-- The refusals of an insertion; those of audits belong to reliability.rs.
pub data LedgerError : Type 0 where
  bad_signature : LedgerError
  network_mismatch : (advertisement_network ledger_network : ℕ) → LedgerError
  not_a_member : ℕ → LedgerError

pub record CapabilityLedger : Type 0 where
  pub network : ℕ
  pub entries : Map ℕ CapabilityAdvertisement

-- `Result<(), LedgerError>`
pub data Answer : Type 0 where
  accepted : Answer
  refused : LedgerError → Answer

unfoldable pub new : ℕ → CapabilityLedger
new network = record { network = network; entries = [] }

-- The match on the entry that the ledger has of the node: an older advertisement is ignored.
abbrev pub newer : Option CapabilityAdvertisement → CapabilityAdvertisement → Bool
newer none a = true
newer (some existing) a = not (leb_ℤ a.issued_at existing.issued_at)

unfoldable pub insert_advertisement :
    Crypto
    → GovernanceState
    → CapabilityAdvertisement
    → CapabilityLedger
    → CapabilityLedger × Answer
unfolding advertisement_verifies is_member get insert
insert_advertisement crypto state a self =
    if not (advertisement_verifies crypto a)
    then (self, refused bad_signature)
    else if not (a.network == self.network)
    then (self, refused (network_mismatch a.network self.network))
    else if not (is_member state a.node)
    then (self, refused (not_a_member a.node))
    else if newer (get a.node self.entries) a
    then (record self { entries = insert a.node a self.entries }, accepted)
    else (self, accepted)

abbrev issued : Map ℕ CapabilityAdvertisement → List (ℕ × Timestamp)
issued [] = []
issued ((node, a) ∷ rest) = (node, a.issued_at) ∷ issued rest

unfoldable pub digest : CapabilityLedger → List (ℕ × Timestamp)
digest self = issued self.entries

-- `is_none_or(|held| held.issued_at < *issued_at)`
abbrev wants : Option CapabilityAdvertisement → Timestamp → Bool
wants none issued_at = true
wants (some held) issued_at = ltb_ℤ held.issued_at issued_at

unfoldable pub wanted_from : CapabilityLedger → List (ℕ × Timestamp) → List ℕ
unfolding get
wanted_from self [] = []
wanted_from self ((node, issued_at) ∷ rest) =
    let others = wanted_from self rest in
    if wants (get node self.entries) issued_at then node ∷ others else others

abbrev matched : Map ℕ CapabilityAdvertisement → List ℕ → List CapabilityAdvertisement
matched entries [] = []
matched entries (node ∷ rest) = elim (get node entries) [
  | none ↦ matched entries rest
  | some a ↦ a ∷ matched entries rest
]

unfoldable pub fetch : CapabilityLedger → List ℕ → ℕ → List CapabilityAdvertisement × Bool
unfolding get
fetch self nodes max =
    let found = matched self.entries nodes in (take max found, ltb max (length found))

unfoldable pub remove_node :
    ℕ → CapabilityLedger → CapabilityLedger × Option CapabilityAdvertisement
unfolding get remove
remove_node node self = (record self { entries = remove node self.entries }, get node self.entries)

unfoldable pub expire : Timestamp → ℤ → CapabilityLedger → CapabilityLedger × ℕ
unfolding retain is_stale
expire now ttl_millis self =
    let fresh = retain (λ _ a. not (is_stale a now ttl_millis)) self.entries in
    (record self { entries = fresh }, length self.entries - length fresh)

unfoldable pub reconcile : GovernanceState → CapabilityLedger → CapabilityLedger × ℕ
unfolding retain is_member
reconcile state self =
    let members = retain (λ node _. is_member state node) self.entries in
    (record self { entries = members }, length self.entries - length members)

unfoldable pub storage_candidates : CapabilityLedger → List CapabilityAdvertisement
storage_candidates self = filter (λ a. ltb 0 a.storage_offered) (values self.entries)

unfoldable pub media_relay_candidates : CapabilityLedger → List CapabilityAdvertisement
media_relay_candidates self = filter (λ a. a.relay_media_willing) (values self.entries)

unfoldable pub bootstrap_relay_candidates : CapabilityLedger → List CapabilityAdvertisement
bootstrap_relay_candidates self = filter (λ a. a.relay_bootstrap_willing) (values self.entries)

module _ (crypto : Crypto) where
  unfoldable pub select_replicas : CapabilityLedger → List ℕ → ℕ → List ℕ
  unfolding select storage_candidates
  select_replicas self cid count = select crypto cid storage_offered count (storage_candidates self)

  unfoldable pub select_stream_tier : CapabilityLedger → List ℕ → ℕ → List ℕ
  unfolding select media_relay_candidates
  select_stream_tier self stream_id count =
      select crypto stream_id bandwidth_up count (media_relay_candidates self)
