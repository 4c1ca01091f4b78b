-- ===== src/Governance/Vote/Quorum.antt =====
-- What a quorum certificate that verifies proves, and what makes one verify.
use distributed_intranet.Base.{
  ℕ, suc, ◌+◌, ◌≤◌, ◌≡◌, ◌↔◌, not, Bool, true, false, List, [], ◌∷◌, map, arith,
}
use distributed_intranet.Base.Tests.{leb, ◌==◌, ==_iff, if◌then◌else◌}
use distributed_intranet.Base.Lists.{any, is_empty}
use distributed_intranet.Base.Int.{◌≤ℤ◌}
use distributed_intranet.Crypto.{Crypto}
use distributed_intranet.Crypto.Merkle.{merkle_root}
use distributed_intranet.Governance.Error.{
  Result, ok, guard, >>=-eq-ok, guard-eq-ok, invalid_quorum_certificate, other_proposal, no_ballots,
  wrong_root,
}
use distributed_intranet.Governance.Vote.{
  passed, failed, VoteProposal, Ballot, QuorumCertificate, vote_id, ballot_verifies, ballot_hash,
  check_ballots, verify,
}

-- How many of the ballots approve.
abbrev pub approving : List Ballot → ℕ
approving [] = 0
approving (b ∷ rest) = let later = approving rest in if b.approve then suc later else later

-- Each ballot is for the expected proposal, is signed by its voter, comes from the electorate,
-- was cast by the close, and its voter is none of `seen` and of the voters before it.
abbrev pub IsRoll : Crypto → VoteProposal → ℕ → List ℕ → List Ballot → Type 0
IsRoll crypto proposal expected seen [] = Unit
IsRoll crypto proposal expected seen (b ∷ rest) =
    (b.vote_id ≡ expected)
    × (ballot_verifies crypto b ≡ true)
    × (any (λ v. v == b.voter) proposal.electorate_snapshot ≡ true)
    × (b.cast_at ≤ℤ proposal.close_time)
    × (any (λ v. v == b.voter) seen ≡ false)
    × IsRoll crypto proposal expected (b.voter ∷ seen) rest

module _ (crypto : Crypto) (proposal : VoteProposal) (expected : ℕ) where
  check_ballots-IsRoll :
      (ballots : List Ballot) (seen : List ℕ) (approvals n : ℕ)
      → check_ballots crypto proposal expected ballots seen approvals ≡ ok n
      → IsRoll crypto proposal expected seen ballots × (n ≡ approvals + approving ballots)
  unfolding check_ballots
  check_ballots-IsRoll [] seen approvals n h = (tt, ground arith)
  check_ballots-IsRoll (b ∷ rest) seen approvals n h = ground (
    arith,
    check_ballots-IsRoll rest (b.voter ∷ seen) (if b.approve then approvals + 1 else approvals) n,
  )

  pub check_ballots_counts :
      (ballots : List Ballot) (seen : List ℕ) (approvals : ℕ)
      → IsRoll crypto proposal expected seen ballots
      → check_ballots crypto proposal expected ballots seen approvals
        ≡ ok (approvals + approving ballots)
  unfolding check_ballots
  check_ballots_counts [] seen approvals h = ground arith
  check_ballots_counts (b ∷ rest) seen approvals h = ground (
    arith,
    check_ballots_counts rest (b.voter ∷ seen) (if b.approve then approvals + 1 else approvals),
  )

not-true : (b : Bool) → not b ≡ true → b ≡ false
not-true b h = ground arith

quorum_reached :
    (quorum n : ℕ) → ok (if leb quorum n then passed else failed) ≡ ok passed → quorum ≤ n
quorum_reached quorum n h = ground arith

module _ (crypto : Crypto) (cert : QuorumCertificate) (proposal : VoteProposal) where
  abbrev counted : Result ℕ
  counted = check_ballots crypto proposal (vote_id crypto proposal) cert.ballots [] 0

  abbrev root : ℕ
  root = merkle_root crypto (map (ballot_hash crypto) cert.ballots)

  verify_ok :
      verify crypto cert proposal ≡ ok passed
      → (cert.vote_id ≡ vote_id crypto proposal)
        × (is_empty cert.ballots ≡ false)
        × (root ≡ cert.merkle_root)
        × ((n : ℕ) × (counted ≡ ok n) × (proposal.quorum ≤ n))
  unfolding verify
  verify_ok h =
      let (u, named, h1) =
        >>=-eq-ok
          (guard (cert.vote_id == vote_id crypto proposal)
            (invalid_quorum_certificate other_proposal))
          _ h in
      let (v, filled, h2) =
        >>=-eq-ok (guard (not (is_empty cert.ballots)) (invalid_quorum_certificate no_ballots)) _
          h1 in
      let (n, total, h3) = >>=-eq-ok counted _ h2 in
      let (w, rooted, h4) =
        >>=-eq-ok (guard (root == cert.merkle_root) (invalid_quorum_certificate wrong_root)) _ h3 in
      (
        (==_iff _ _).0 (guard-eq-ok _ (invalid_quorum_certificate other_proposal) named),
        not-true _ (guard-eq-ok _ (invalid_quorum_certificate no_ballots) filled),
        (==_iff _ _).0 (guard-eq-ok _ (invalid_quorum_certificate wrong_root) rooted),
        (n, total, quorum_reached proposal.quorum n h4),
      )

  verify_passes :
      (n : ℕ)
      → cert.vote_id ≡ vote_id crypto proposal
      → is_empty cert.ballots ≡ false
      → counted ≡ ok n
      → root ≡ cert.merkle_root
      → proposal.quorum ≤ n
      → verify crypto cert proposal ≡ ok passed
  unfolding verify
  verify_passes n named filled total rooted enough =
      rw (named, filled, total, rooted) (ground arith)

-- A certificate verifies as passed exactly if it names the proposal, its ballots are a roll of
-- qualifying ballots from distinct voters, its root is theirs, and enough of them approve.
pub verify-passed :
    (crypto : Crypto) (cert : QuorumCertificate) (proposal : VoteProposal)
    → (verify crypto cert proposal ≡ ok passed) ↔ (
        (cert.vote_id ≡ vote_id crypto proposal)
        × (is_empty cert.ballots ≡ false)
        × IsRoll crypto proposal (vote_id crypto proposal) [] cert.ballots
        × (merkle_root crypto (map (ballot_hash crypto) cert.ballots) ≡ cert.merkle_root)
        × (proposal.quorum ≤ approving cert.ballots))
verify-passed crypto cert proposal = (
  λ h.
      let (named, filled, rooted, (n, total, enough)) = verify_ok crypto cert proposal h in
      let (roll, count) =
        check_ballots-IsRoll crypto proposal (vote_id crypto proposal) cert.ballots [] 0 n total in
      (named, filled, roll, rooted, omega arith),
  λ (named, filled, roll, rooted, enough).
      verify_passes crypto cert proposal (0 + approving cert.ballots) named filled
        (check_ballots_counts crypto proposal (vote_id crypto proposal) cert.ballots [] 0 roll)
        rooted (omega arith),
)
