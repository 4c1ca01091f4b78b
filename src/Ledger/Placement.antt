-- ===== src/Ledger/Placement.antt =====
-- crates/intranet-ledger/src/placement.rs: rendezvous hashing. A digest is the number that its 32
-- bytes spell, so its first eight bytes are its quotient by 256 ^ 24; the product fits a u128.
use distributed_intranet.Base.{ℕ, ◌*◌, ◌/◌, ◌^◌, Bool, ◌&&◌, ◌||◌, List, [], ◌∷◌, map}
use distributed_intranet.Base.Tests.{ltb, leb, ◌==◌, if◌then◌else◌}
use distributed_intranet.Base.Lists.{take}
use distributed_intranet.Crypto.{Crypto}
use distributed_intranet.Crypto.Enc.{◌▸◌, domain, bytes, fixed}
use distributed_intranet.Ledger.Advertisement.{CapabilityAdvertisement}

pub data WeightField : Type 0 where
  storage_offered bandwidth_up : WeightField

unfoldable pub weight_of : WeightField → CapabilityAdvertisement → ℕ
weight_of storage_offered a = a.storage_offered
weight_of bandwidth_up a = a.bandwidth_cap.up_bytes_per_sec

pub record ScoredCandidate : Type 0 where
  pub node : ℕ
  pub score : ℕ

-- `b.score.cmp(&a.score).then_with(|| a.node.cmp(&b.node))` is not `Greater`.
unfoldable pub before : ScoredCandidate → ScoredCandidate → Bool
before a b = ltb b.score a.score || (a.score == b.score && leb a.node b.node)

-- `sort_by`
unfoldable pub settle : ScoredCandidate → List ScoredCandidate → List ScoredCandidate
unfolding before
settle c [] = c ∷ []
settle c (d ∷ rest) = let later = settle c rest in if before c d then c ∷ d ∷ rest else d ∷ later

unfoldable pub sort_scored : List ScoredCandidate → List ScoredCandidate
unfolding settle
sort_scored [] = []
sort_scored (c ∷ rest) = settle c (sort_scored rest)

module _ (crypto : Crypto) (key : List ℕ) where
  unfoldable pub score : ℕ → ℕ → ℕ
  unfolding domain bytes fixed
  score node weight =
      crypto.hash_bytes (domain "intranet.hrw.v1" ▸ bytes key ▸ fixed 32 node) / 256 ^ 24 * weight

  unfoldable pub score_all : WeightField → List CapabilityAdvertisement → List ScoredCandidate
  unfolding score weight_of
  score_all field [] = []
  score_all field (a ∷ rest) =
      let others = score_all field rest in
      if ltb 0 (weight_of field a)
      then record { node = a.node; score = score a.node (weight_of field a) } ∷ others
      else others

  unfoldable pub rank : WeightField → List CapabilityAdvertisement → List ScoredCandidate
  unfolding score_all sort_scored
  rank field candidates = sort_scored (score_all field candidates)

  unfoldable pub select : WeightField → ℕ → List CapabilityAdvertisement → List ℕ
  unfolding rank
  select field n candidates = map (λ c. c.node) (take n (rank field candidates))
