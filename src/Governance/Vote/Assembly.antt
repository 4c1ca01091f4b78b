-- ===== src/Governance/Vote/Assembly.antt =====
-- A certificate that is assembled from qualifying ballots verifies
-- (crates/intranet-governance/src/vote.rs).
use distributed_intranet.Base.{
  ℕ, ◌≡◌, refl, not, ◌&&◌, ◌||◌, Bool, true, false, Option, none, some, List, [], ◌∷◌, map, arith,
  inl, inr,
}
use distributed_intranet.Base.Tests.{◌==◌, Bool-cases}
use distributed_intranet.Base.Lists.{any, is_empty}
use distributed_intranet.Base.Int.{leb_ℤ}
use distributed_intranet.Base.Order.{nat_ord}
use distributed_intranet.Map.{Map, get, insert, keys}
use distributed_intranet.Map.Laws.{get-insert_self}
use distributed_intranet.Map.Counts.{every, every-insert, every-get}
use distributed_intranet.Map.Distinct.{
  listed, distinct, distinct-insert, keyed, keyed-insert, keyed-get, is_empty-contains,
}
use distributed_intranet.Crypto.{Crypto}
use distributed_intranet.Governance.Vote.{
  VoteProposal, Ballot, vote_id, ballot_verifies, earlier, keep_earliest, collect, place,
  sort_ballots,
}

-- Whether all items pass a test.
abbrev pub all_pass {ℓ} : {A : Type ℓ} → (A → Bool) → List A → Bool
all_pass test [] = true
all_pass test (x ∷ xs) = test x && all_pass test xs

abbrev pub voters : List Ballot → List ℕ
voters ballots = map (λ b. b.voter) ballots

module _ (crypto : Crypto) (proposal : VoteProposal) where
  -- Whether a ballot is signed, from the electorate, and cast by the close.
  abbrev pub qualifies : Ballot → Bool
  qualifies b =
      ballot_verifies crypto b
      && listed b.voter proposal.electorate_snapshot
      && leb_ℤ b.cast_at proposal.close_time

  abbrev pub is_for : Ballot → Bool
  is_for b = b.vote_id == vote_id crypto proposal

  abbrev pub counts : Ballot → Bool
  counts b = is_for b && qualifies b

  -- What the map of the earliest ballots satisfies.
  abbrev pub IsTally : Map ℕ Ballot → Type 0
  IsTally m = (every counts m ≡ true) × (distinct (keys m) ≡ true) × (keyed (λ b. b.voter) m ≡ true)

  keep_earliest_lem :
      (o : Option Ballot) (b : Ballot) (m : Map ℕ Ballot)
      → get b.voter m ≡ o
      → counts b ≡ true
      → IsTally m
      → (counts (keep_earliest crypto o b) ≡ true) × ((keep_earliest crypto o b).voter ≡ b.voter)
  unfolding keep_earliest
  keep_earliest_lem none b m found good tally = (good, refl)
  keep_earliest_lem (some old) b m found good tally = elim (Bool-cases (earlier crypto b old)) [
    | inl first ↦ rw first (good, refl)
    | inr later ↦ rw later (
      every-get counts b.voter m found tally.0,
      keyed-get (λ b. b.voter) b.voter old m found tally.2,
    )
  ]

  insert-IsTally :
      (b : Ballot) (m : Map ℕ Ballot)
      → counts b ≡ true
      → IsTally m
      → IsTally (insert b.voter (keep_earliest crypto (get b.voter m) b) m)
  insert-IsTally b m good tally =
      let kept = keep_earliest crypto (get b.voter m) b in
      let (still, own) = keep_earliest_lem (get b.voter m) b m refl good tally in
      (
        every-insert counts b.voter kept m still tally.0,
        distinct-insert b.voter kept m tally.1,
        keyed-insert (λ b. b.voter) b.voter kept m own tally.2,
      )

  -- Whether every ballot for the proposal qualifies.
  abbrev pub sound : Ballot → Bool
  sound b = not (is_for b) || qualifies b

  pub collect-IsTally :
      (ballots : List Ballot) (m : Map ℕ Ballot)
      → all_pass sound ballots ≡ true
      → IsTally m
      → IsTally (collect crypto (vote_id crypto proposal) ballots m)
  unfolding collect
  collect-IsTally [] m h tally = tally
  collect-IsTally (b ∷ rest) m h tally = elim (Bool-cases (is_for b)) [
    | inl mine ↦ rw mine (
        collect-IsTally rest (insert b.voter (keep_earliest crypto (get b.voter m) b) m)
          (ground arith) (insert-IsTally b m (ground arith) tally))
    | inr other ↦ rw other (collect-IsTally rest m (ground arith) tally)
  ]

  inserted_not_empty : (k : ℕ) (b : Ballot) (m : Map ℕ Ballot) → is_empty (insert k b m) ≡ false
  inserted_not_empty k b m = is_empty-contains (insert k b m) k (rw (get-insert_self k b m) refl)

  pub is_empty-collect :
      (ballots : List Ballot) (m : Map ℕ Ballot)
      → (any is_for ballots || not (is_empty m)) ≡ true
      → is_empty (collect crypto (vote_id crypto proposal) ballots m) ≡ false
  unfolding collect
  is_empty-collect [] m h = ground arith
  is_empty-collect (b ∷ rest) m h = elim (Bool-cases (is_for b)) [
    | inl mine ↦
        (let next = insert b.voter (keep_earliest crypto (get b.voter m) b) m in
          let full = inserted_not_empty b.voter (keep_earliest crypto (get b.voter m) b) m in
          rw mine (is_empty-collect rest next (ground arith)))
    | inr other ↦ rw other (is_empty-collect rest m (ground arith))
  ]

  all_pass-place :
      (test : Ballot → Bool) (b : Ballot) (xs : List Ballot)
      → all_pass test (place crypto b xs) ≡ (test b && all_pass test xs)
  unfolding place
  all_pass-place test b [] = refl
  all_pass-place test b (c ∷ xs) = ground (arith, all_pass-place test b xs)

  listed-place :
      (x : ℕ) (b : Ballot) (xs : List Ballot)
      → listed x (voters (place crypto b xs)) ≡ ((b.voter == x) || listed x (voters xs))
  unfolding place
  listed-place x b [] = refl
  listed-place x b (c ∷ xs) = ground (arith, listed-place x b xs)

  distinct-place :
      (b : Ballot) (xs : List Ballot)
      → distinct (voters (place crypto b xs))
        ≡ (not (listed b.voter (voters xs)) && distinct (voters xs))
  unfolding place
  distinct-place b [] = refl
  distinct-place b (c ∷ xs) = ground (arith, distinct-place b xs, listed-place c.voter b xs)

  pub all_pass-sort_ballots :
      (test : Ballot → Bool) (xs : List Ballot)
      → all_pass test (sort_ballots crypto xs) ≡ all_pass test xs
  unfolding sort_ballots
  all_pass-sort_ballots test [] = refl
  all_pass-sort_ballots test (b ∷ xs) =
      ground (arith, all_pass-sort_ballots test xs, all_pass-place test b (sort_ballots crypto xs))

  pub listed-sort_ballots :
      (x : ℕ) (xs : List Ballot) → listed x (voters (sort_ballots crypto xs)) ≡ listed x (voters xs)
  unfolding sort_ballots
  listed-sort_ballots x [] = refl
  listed-sort_ballots x (b ∷ xs) =
      ground (arith, listed-sort_ballots x xs, listed-place x b (sort_ballots crypto xs))

  pub distinct-sort_ballots :
      (xs : List Ballot) → distinct (voters (sort_ballots crypto xs)) ≡ distinct (voters xs)
  unfolding sort_ballots
  distinct-sort_ballots [] = refl
  distinct-sort_ballots (b ∷ xs) = ground (
    arith,
    distinct-sort_ballots xs,
    distinct-place b (sort_ballots crypto xs),
    listed-sort_ballots b.voter xs,
  )
