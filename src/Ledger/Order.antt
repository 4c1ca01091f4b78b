-- ===== src/Ledger/Order.antt =====
-- Placement does not depend on the order in which a ledger lists its candidates.
use distributed_intranet.Base.{ℕ, ◌≡◌, refl, ◌∙◌, true, false, List, [], ◌∷◌, arith}
use distributed_intranet.Crypto.{Crypto}
use distributed_intranet.Ledger.Advertisement.{CapabilityAdvertisement}
use distributed_intranet.Ledger.Placement.{
  WeightField, weight_of, ScoredCandidate, before, settle, sort_scored, score, score_all, rank,
  select,
}

-- The same candidates, in another order.
pub data Rearranged : List CapabilityAdvertisement → List CapabilityAdvertisement → Type 0 where
  nothing : Rearranged [] []
  kept :
      {a : CapabilityAdvertisement} {l m : List CapabilityAdvertisement}
      → Rearranged l m
      → Rearranged (a ∷ l) (a ∷ m)
  swapped :
      {a b : CapabilityAdvertisement} {l : List CapabilityAdvertisement}
      → Rearranged (a ∷ b ∷ l) (b ∷ a ∷ l)
  chained :
      {l m n : List CapabilityAdvertisement} → Rearranged l m → Rearranged m n → Rearranged l n

both_before : (a b : ScoredCandidate) → before a b ≡ true → before b a ≡ true → a ≡ b
unfolding before
both_before a b h k = ground arith

pub either_before : (a b : ScoredCandidate) → before a b ≡ false → before b a ≡ true
unfolding before
either_before a b h = ground arith

pub before_trans :
    (a b c : ScoredCandidate) → before a b ≡ true → before b c ≡ true → before a c ≡ true
unfolding before
before_trans a b c h k = ground arith

settle-settle :
    (a b : ScoredCandidate) (l : List ScoredCandidate)
    → settle a (settle b l) ≡ settle b (settle a l)
unfolding settle
settle-settle a b [] = ground (arith, both_before a b, either_before a b)
settle-settle a b (c ∷ l) = ground (
  arith,
  settle-settle a b l,
  both_before a b,
  either_before a b,
  before_trans a b c,
  before_trans b a c,
)

module _ (crypto : Crypto) (key : List ℕ) (field : WeightField) where
  abbrev scored : CapabilityAdvertisement → ScoredCandidate
  scored a = record { node = a.node; score = score crypto key a.node (weight_of field a) }

  pub rank-Rearranged :
      {l m : List CapabilityAdvertisement}
      → Rearranged l m
      → rank crypto key field l ≡ rank crypto key field m
  unfolding rank score_all sort_scored
  rank-Rearranged nothing = refl
  rank-Rearranged (kept {a = a} r) = ground (arith, rank-Rearranged r)
  rank-Rearranged (swapped {a = a} {b = b} {l = l}) =
      ground
        (arith, settle-settle (scored a) (scored b) (sort_scored (score_all crypto key field l)))
  rank-Rearranged (chained r s) = rank-Rearranged r ∙ rank-Rearranged s

  -- The nodes selected for a key do not depend on the order of the candidates.
  pub select-Rearranged :
      (n : ℕ) {l m : List CapabilityAdvertisement}
      → Rearranged l m
      → select crypto key field n l ≡ select crypto key field n m
  unfolding select
  select-Rearranged n r = rw (rank-Rearranged r) refl
