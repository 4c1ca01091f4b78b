-- ===== src/Ledger/Reliability.antt =====
-- crates/intranet-ledger/src/reliability.rs: what one node has seen of its peers. A failure
-- rate is an f64: its type, its division and its comparison are parameters.
use distributed_intranet.Base.{ℕ, ◌+◌, ◌-◌, min, Bool, Option, none, some, List, [], ◌∷◌}
use distributed_intranet.Base.Tests.{ltb, leb, if◌then◌else◌}
use distributed_intranet.Base.Int.{word}
use distributed_intranet.Base.Order.{nat_ord}
use distributed_intranet.Map.{Map, get, insert, keys}
use distributed_intranet.Crypto.Time.{Timestamp}

pub record PeerObservations : Type 0 where
  pub verified : ℕ
  pub failed : ℕ

abbrev pub unobserved : PeerObservations
unobserved = record { verified = 0; failed = 0 }

-- `saturating_add` of two u64.
abbrev pub saturating_add : ℕ → ℕ → ℕ
saturating_add a b = min (a + b) (word - 1)

unfoldable pub total : PeerObservations → ℕ
total o = saturating_add o.verified o.failed

pub record ReliabilityObservations : Type 0 where
  pub counters : Map ℕ PeerObservations
  pub audit_log : Map ℕ (List Timestamp)

unfoldable pub new : ReliabilityObservations
new = record { counters = []; audit_log = [] }

abbrev pub or_unobserved : Option PeerObservations → PeerObservations
or_unobserved none = unobserved
or_unobserved (some o) = o

unfoldable pub for_peer : ReliabilityObservations → ℕ → PeerObservations
unfolding get
for_peer self peer = or_unobserved (get peer self.counters)

unfoldable pub record_verified : ℕ → ReliabilityObservations → ReliabilityObservations
unfolding for_peer insert
record_verified peer self =
    let o = for_peer self peer in
    record self {
      counters = insert peer (record o { verified = saturating_add o.verified 1 }) self.counters;
    }

unfoldable pub record_failed : ℕ → ReliabilityObservations → ReliabilityObservations
unfolding for_peer insert
record_failed peer self =
    let o = for_peer self peer in
    record self {
      counters = insert peer (record o { failed = saturating_add o.failed 1 }) self.counters;
    }

unfoldable pub observed_peers : ReliabilityObservations → List ℕ
observed_peers self = keys self.counters

module _ {F : Type 0} (div : ℕ → ℕ → F) (at_least : F → F → Bool) where
  unfoldable pub failure_rate : PeerObservations → Option F
  unfolding total
  failure_rate o = if ltb 0 (total o) then some (div o.failed (total o)) else none

  -- The key of the sort: good peers, then unknown ones, then those that fail too often.
  unfoldable pub standing : F → Option F → ℕ
  standing threshold none = 1
  standing threshold (some rate) = if at_least rate threshold then 2 else 0

  unfoldable pub standing_of : ReliabilityObservations → F → ℕ → ℕ
  unfolding for_peer failure_rate standing
  standing_of self threshold peer = standing threshold (failure_rate (for_peer self peer))

-- `sort_by_key` is stable: a peer goes before those that came after it, unless their key is less.
unfoldable pub place : (ℕ → ℕ) → ℕ → List ℕ → List ℕ
place key peer [] = peer ∷ []
place key peer (p ∷ rest) =
    let placed = place key peer rest in
    if leb (key peer) (key p) then peer ∷ p ∷ rest else p ∷ placed

unfoldable pub sort_by_key : (ℕ → ℕ) → List ℕ → List ℕ
unfolding place
sort_by_key key [] = []
sort_by_key key (peer ∷ rest) = place key peer (sort_by_key key rest)

unfoldable pub deprioritize_unreliable :
    {F : Type 0} (div : ℕ → ℕ → F) (at_least : F → F → Bool)
    → ReliabilityObservations
    → F
    → List ℕ
    → List ℕ
unfolding standing_of sort_by_key
deprioritize_unreliable div at_least self threshold candidates =
    sort_by_key (standing_of div at_least self threshold) candidates
