-- ===== src/Governance/Vote/Assembled.antt =====
-- What `assemble` gives passes `verify` (crates/intranet-governance/src/vote.rs).
use distributed_intranet.Base.{
  ℕ, ◌≡◌, refl, sym, subst, not, Bool, true, false, List, [], ◌∷◌, arith, ◌∙◌,
}
use distributed_intranet.Base.Tests.{leb, ==_iff, if◌then◌else◌}
use distributed_intranet.Base.Lists.{any, is_empty}
use distributed_intranet.Base.Order.{nat_ord}
use distributed_intranet.Map.{Map, keys, values}
use distributed_intranet.Map.Counts.{every}
use distributed_intranet.Map.Distinct.{listed, distinct, keyed}
use distributed_intranet.Crypto.{Crypto}
use distributed_intranet.Governance.Error.{ok}
use distributed_intranet.Governance.Vote.{
  passed, failed, VoteProposal, Ballot, vote_id, collect, place, sort_ballots, assemble, verify,
}
use distributed_intranet.Governance.Vote.Quorum.{approving, IsRoll, check_ballots_counts}
use distributed_intranet.Governance.Vote.Assembly.{
  all_pass, voters, is_for, counts, sound, collect-IsTally, is_empty-collect, all_pass-sort_ballots,
  distinct-sort_ballots,
}

all_pass-values :
    (test : Ballot → Bool) (m : Map ℕ Ballot) → all_pass test (values m) ≡ every test m
all_pass-values test [] = refl
all_pass-values test ((k, b) ∷ m) = ground (arith, all_pass-values test m)

voters-values : (m : Map ℕ Ballot) → keyed (λ b. b.voter) m ≡ true → voters (values m) ≡ keys m
voters-values [] h = refl
voters-values ((k, b) ∷ m) h = ground (arith, voters-values m)

is_empty-values : (m : Map ℕ Ballot) → is_empty (values m) ≡ is_empty m
is_empty-values [] = refl
is_empty-values (e ∷ m) = refl

-- Whether no ballot's voter is among those seen.
abbrev unseen : List ℕ → List Ballot → Bool
unseen seen ballots = all_pass (λ b. not (listed b.voter seen)) ballots

unseen_nil : (ballots : List Ballot) → unseen [] ballots ≡ true
unseen_nil [] = refl
unseen_nil (b ∷ rest) = unseen_nil rest

unseen_cons :
    (x : ℕ) (seen : List ℕ) (ballots : List Ballot)
    → listed x (voters ballots) ≡ false
    → unseen seen ballots ≡ true
    → unseen (x ∷ seen) ballots ≡ true
unseen_cons x seen [] h k = refl
unseen_cons x seen (b ∷ rest) h k = ground (arith, unseen_cons x seen rest)

module _ (crypto : Crypto) (proposal : VoteProposal) where
  counted-IsRoll :
      (seen : List ℕ) (ballots : List Ballot)
      → all_pass (counts crypto proposal) ballots ≡ true
      → distinct (voters ballots) ≡ true
      → unseen seen ballots ≡ true
      → IsRoll crypto proposal (vote_id crypto proposal) seen ballots
  counted-IsRoll seen [] good own new = tt
  counted-IsRoll seen (b ∷ rest) good own new =
      let k = unseen_cons b.voter seen rest in
      let ih = counted-IsRoll (b.voter ∷ seen) rest (ground arith) (ground arith) (ground arith) in
      (
        (==_iff b.vote_id (vote_id crypto proposal)).0 (ground arith),
        ground arith,
        ground arith,
        ground arith,
        ground arith,
        ih,
      )

  not_empty-sort_ballots :
      (xs : List Ballot) → is_empty xs ≡ false → is_empty (sort_ballots crypto xs) ≡ false
  unfolding sort_ballots place
  not_empty-sort_ballots [] h = h
  not_empty-sort_ballots (b ∷ xs) h = placed (sort_ballots crypto xs)
    where
      placed : (ys : List Ballot) → is_empty (place crypto b ys) ≡ false
      placed [] = refl
      placed (c ∷ ys) = ground arith

  -- When every ballot for the proposal qualifies and there is one, the certificate that is assembled
  -- from them verifies, whatever order and repetitions they come in, as passed exactly if those it
  -- has kept reach the quorum.
  pub verify-assemble :
      (ballots : List Ballot)
      → all_pass (sound crypto proposal) ballots ≡ true
      → any (is_for crypto proposal) ballots ≡ true
      → verify crypto (assemble crypto proposal ballots) proposal
        ≡ ok (
            if leb proposal.quorum (approving (assemble crypto proposal ballots).ballots)
            then passed
            else failed)
  unfolding verify assemble
  verify-assemble ballots good present =
      let tally = collect crypto (vote_id crypto proposal) ballots [] in
      let (fine, unique, own) =
        collect-IsTally crypto proposal ballots [] good (refl, refl, refl) in
      let sorted = sort_ballots crypto (values tally) in
      let all_good : all_pass (counts crypto proposal) sorted ≡ true =
        all_pass-sort_ballots crypto proposal (counts crypto proposal) (values tally)
        ∙ all_pass-values (counts crypto proposal) tally
        ∙ fine in
      let once : distinct (voters sorted) ≡ true =
        distinct-sort_ballots crypto proposal (values tally)
        ∙ subst (λ vs. distinct vs ≡ true) (sym (voters-values tally own)) unique in
      let filled : is_empty sorted ≡ false =
        not_empty-sort_ballots (values tally)
          (is_empty-values tally ∙ is_empty-collect crypto proposal ballots [] (ground arith)) in
      let roll = counted-IsRoll [] sorted all_good once (unseen_nil sorted) in
      let total = check_ballots_counts crypto proposal (vote_id crypto proposal) sorted [] 0 roll in
      rw (filled, total) (ground arith)
