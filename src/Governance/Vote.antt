-- ===== src/Governance/Vote.antt =====
-- crates/intranet-governance/src/vote.rs: proposals, ballots and quorum certificates.
pub mod Quorum
pub mod Assembly
pub mod Assembled
pub mod Tests
use distributed_intranet.Base.{
  ℕ, ◌+◌, Bool, true, false, not, ◌&&◌, ◌||◌, Option, none, some, List, [], ◌∷◌, map,
}
use distributed_intranet.Base.Tests.{ltb, leb, ◌==◌, if◌then◌else◌}
use distributed_intranet.Base.Lists.{any, is_empty}
use distributed_intranet.Base.Int.{leb_ℤ, ltb_ℤ}
use distributed_intranet.Base.Order.{nat_ord}
use distributed_intranet.Map.{Map, get, insert, values}
use distributed_intranet.Crypto.{Crypto}
use distributed_intranet.Crypto.Enc.{Enc, ◌▸◌, domain, fixed, str, seq, i64, u32, bool}
use distributed_intranet.Crypto.Time.{Timestamp}
use distributed_intranet.Crypto.Merkle.{merkle_root}
use distributed_intranet.Governance.Capability.{GroupId}
use distributed_intranet.Governance.Error.{
  Result, ok, err, guard, ◌>>=◌, ◌>>◌, invalid_quorum_certificate, bad_signature, other_proposal,
  no_ballots, ballot_for_other_proposal, ballot_signature, outside_electorate, after_close,
  repeated_voter, wrong_root,
}

pub data VoteOutcome : Type 0 where
  passed failed : VoteOutcome

-- `BTreeSet` of voters: the list of them in their order.
pub record VoteProposal : Type 0 where
  pub subject : ℕ
  pub electorate : GroupId
  pub electorate_snapshot : List ℕ
  pub snapshot_ref : ℕ
  pub close_time : Timestamp
  pub quorum : ℕ

pub record Ballot : Type 0 where
  pub vote_id : ℕ
  pub voter : ℕ
  pub approve : Bool
  pub cast_at : Timestamp
  pub signature : ℕ

pub record QuorumCertificate : Type 0 where
  pub vote_id : ℕ
  pub ballots : List Ballot
  pub merkle_root : ℕ

unfoldable pub encode_proposal : VoteProposal → Enc → Enc
unfolding fixed str seq i64 u32
encode_proposal p e =
    e
    ▸ fixed 32 p.subject
    ▸ str p.electorate
    ▸ seq p.electorate_snapshot (fixed 32)
    ▸ fixed 32 p.snapshot_ref
    ▸ i64 p.close_time
    ▸ u32 p.quorum

unfoldable pub ballot_payload : Ballot → Enc
unfolding domain fixed bool i64
ballot_payload b =
    domain "intranet.ballot.v1"
    ▸ fixed 32 b.vote_id
    ▸ fixed 32 b.voter
    ▸ bool b.approve
    ▸ i64 b.cast_at

unfoldable pub encode_ballot : Ballot → Enc → Enc
unfolding fixed bool i64
encode_ballot b e =
    e
    ▸ fixed 32 b.vote_id
    ▸ fixed 32 b.voter
    ▸ bool b.approve
    ▸ i64 b.cast_at
    ▸ fixed 64 b.signature

unfoldable pub encode_certificate : QuorumCertificate → Enc → Enc
unfolding encode_ballot fixed seq
encode_certificate c e =
    e ▸ fixed 32 c.vote_id ▸ seq c.ballots encode_ballot ▸ fixed 32 c.merkle_root

module _ (crypto : Crypto) where
  unfoldable pub vote_id : VoteProposal → ℕ
  unfolding encode_proposal domain
  vote_id p = crypto.hash_bytes (domain "intranet.vote-proposal.v1" ▸ encode_proposal p)

  unfoldable pub ballot_verifies : Ballot → Bool
  unfolding ballot_payload
  ballot_verifies b = crypto.verify b.voter (ballot_payload b) b.signature

  unfoldable pub ballot_hash : Ballot → ℕ
  unfolding ballot_payload fixed
  ballot_hash b = crypto.hash_bytes (ballot_payload b ▸ fixed 64 b.signature)

  -- `(a.cast_at, a.hash()) < (b.cast_at, b.hash())`
  unfoldable pub earlier : Ballot → Ballot → Bool
  unfolding ballot_hash
  earlier a b =
      ltb_ℤ a.cast_at b.cast_at
      || (leb_ℤ a.cast_at b.cast_at && ltb (ballot_hash a) (ballot_hash b))

  -- the entry of one ballot in `by_voter`
  unfoldable pub keep_earliest : Option Ballot → Ballot → Ballot
  unfolding earlier
  keep_earliest none ballot = ballot
  keep_earliest (some existing) ballot = if earlier ballot existing then ballot else existing

  unfoldable pub collect : ℕ → List Ballot → Map ℕ Ballot → Map ℕ Ballot
  unfolding keep_earliest get insert
  collect id [] by_voter = by_voter
  collect id (ballot ∷ rest) by_voter = collect id rest (
      if ballot.vote_id == id
      then insert ballot.voter (keep_earliest (get ballot.voter by_voter) ballot) by_voter
      else by_voter)

  -- `sort_by_key(Ballot::hash)`: a stable sort
  unfoldable pub place : Ballot → List Ballot → List Ballot
  unfolding ballot_hash
  place b [] = b ∷ []
  place b (c ∷ rest) =
      let later = place b rest in
      if leb (ballot_hash b) (ballot_hash c) then b ∷ c ∷ rest else c ∷ later

  unfoldable pub sort_ballots : List Ballot → List Ballot
  unfolding place
  sort_ballots [] = []
  sort_ballots (b ∷ rest) = place b (sort_ballots rest)

  unfoldable pub assemble : VoteProposal → List Ballot → QuorumCertificate
  unfolding vote_id collect sort_ballots merkle_root
  assemble proposal ballots =
      let id = vote_id proposal in
      let sorted = sort_ballots (values (collect id ballots [])) in
      record {
        vote_id = id;
        ballots = sorted;
        merkle_root = merkle_root crypto (map ballot_hash sorted);
      }

  -- The loop over the ballots, with the voters seen and the approvals counted so far.
  -- The count is a u32 in the source: the voters are distinct members of the snapshot.
  unfoldable pub check_ballots : VoteProposal → ℕ → List Ballot → List ℕ → ℕ → Result ℕ
  unfolding ballot_verifies
  check_ballots proposal expected [] seen approvals = ok approvals
  check_ballots proposal expected (b ∷ rest) seen approvals =
      let counted =
        check_ballots proposal expected rest (b.voter ∷ seen)
          (if b.approve then approvals + 1 else approvals) in
      do
        guard (b.vote_id == expected) (invalid_quorum_certificate ballot_for_other_proposal)
        guard (ballot_verifies b) (invalid_quorum_certificate (ballot_signature b.voter))
        guard (any (λ v. v == b.voter) proposal.electorate_snapshot)
            (invalid_quorum_certificate (outside_electorate b.voter))
        guard (leb_ℤ b.cast_at proposal.close_time)
            (invalid_quorum_certificate (after_close b.voter))
        guard (not (any (λ v. v == b.voter) seen))
            (invalid_quorum_certificate (repeated_voter b.voter))
        counted

  unfoldable pub verify : QuorumCertificate → VoteProposal → Result VoteOutcome
  unfolding vote_id check_ballots merkle_root ballot_hash
  verify cert proposal = do
    guard (cert.vote_id == vote_id proposal) (invalid_quorum_certificate other_proposal)
    guard (not (is_empty cert.ballots)) (invalid_quorum_certificate no_ballots)
    approvals ← check_ballots proposal (vote_id proposal) cert.ballots [] 0
    guard (merkle_root crypto (map ballot_hash cert.ballots) == cert.merkle_root)
        (invalid_quorum_certificate wrong_root)
    ok (if leb proposal.quorum approvals then passed else failed)
