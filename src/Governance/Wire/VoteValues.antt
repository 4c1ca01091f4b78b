-- ===== src/Governance/Wire/VoteValues.antt =====
-- Proposals and certificates, read back from what their encoders append.
use distributed_intranet.Base.{ℕ, ◌≤◌, ◌≡◌, refl, Bool, true, [], arith}
use distributed_intranet.Base.Tests.{leb}
use distributed_intranet.Base.Lists.{length, All}
use distributed_intranet.Base.Int.{IsI64}
use distributed_intranet.Base.Order.{nat_ord}
use distributed_intranet.Map.Collect.{Ascending, collect_set, collect_set-ascending}
use distributed_intranet.Crypto.Dec.{malformed, unexpected_end}
use distributed_intranet.Crypto.Dec.Numbers.{Fits}
use distributed_intranet.Crypto.Dec.Sends.{joined, given, passed_check}
use distributed_intranet.Crypto.Dec.Primitives.{
  Reads, IsStr, fixed-Sends, str-Sends, seq-Sends, i64-Sends, u32-Sends, bool-Sends,
}
use distributed_intranet.Governance.Vote.{
  VoteProposal, Ballot, QuorumCertificate, encode_proposal, encode_ballot, encode_certificate,
}
use distributed_intranet.Governance.Wire.{max_electorate, max_ballots, get_key}
use distributed_intranet.Governance.Wire.Votes.{get_proposal, get_ballot, get_certificate}
use distributed_intranet.Governance.Wire.Values.{given_as, IsKey, key-Sends}

module _ (valid_key : ℕ → Bool) where
  pub record IsProposal (p : VoteProposal) : Type 0 where
    pub subject : Fits 32 p.subject
    pub electorate : IsStr p.electorate
    pub ascending : Ascending p.electorate_snapshot
    pub few : length p.electorate_snapshot ≤ max_electorate
    pub voters : All (IsKey valid_key) p.electorate_snapshot
    pub snapshot_ref : Fits 32 p.snapshot_ref
    pub close_time : IsI64 p.close_time
    pub quorum : Fits 4 p.quorum

  pub record IsBallot (b : Ballot) : Type 0 where
    pub vote_id : Fits 32 b.vote_id
    pub voter : IsKey valid_key b.voter
    pub cast_at : IsI64 b.cast_at
    pub signature : Fits 64 b.signature

  pub record IsCertificate (c : QuorumCertificate) : Type 0 where
    pub vote_id : Fits 32 c.vote_id
    pub few : length c.ballots ≤ max_ballots
    pub ballots : All IsBallot c.ballots
    pub merkle_root : Fits 32 c.merkle_root

  key_end : get_key valid_key [] ≡ malformed (unexpected_end 32 0)
  unfolding get_key
  key_end = refl

  ballot_end : get_ballot valid_key [] ≡ malformed (unexpected_end 32 0)
  unfolding get_ballot
  ballot_end = refl

  proposal_as_sent :
      (p : VoteProposal)
      → IsProposal p
      → record p { electorate_snapshot = collect_set p.electorate_snapshot } ≡ p
  proposal_as_sent p h = rw (collect_set-ascending p.electorate_snapshot h.ascending) refl

  pub get_proposal-Sends : Reads IsProposal encode_proposal (get_proposal valid_key)
  unfolding encode_proposal get_proposal
  get_proposal-Sends p h e =
      let few : leb (length p.electorate_snapshot) max_electorate ≡ true =
        (let l = h.few in ground arith) in
      joined _ (fixed-Sends 32 p.subject h.subject) (
        joined _ (str-Sends p.electorate h.electorate _) (
          joined _
            (seq-Sends (key-Sends valid_key) (unexpected_end 32 0) p.electorate_snapshot key_end
              (let l = h.few in omega arith) h.voters)
            (joined _ (passed_check _ few) (
              joined _ (fixed-Sends 32 p.snapshot_ref h.snapshot_ref) (
                joined _ (i64-Sends p.close_time h.close_time)
                  (joined _ (u32-Sends p.quorum h.quorum) (given_as (proposal_as_sent p h))))))))

  pub get_ballot-Sends : Reads IsBallot encode_ballot (get_ballot valid_key)
  unfolding encode_ballot get_ballot
  get_ballot-Sends b h e = joined _ (fixed-Sends 32 b.vote_id h.vote_id) (
      joined _ (key-Sends valid_key b.voter h.voter _) (
        joined _ (bool-Sends b.approve) (
          joined _ (i64-Sends b.cast_at h.cast_at)
            (joined _ (fixed-Sends 64 b.signature h.signature) (given b)))))

  pub get_certificate-Sends : Reads IsCertificate encode_certificate (get_certificate valid_key)
  unfolding encode_certificate get_certificate
  get_certificate-Sends c h e =
      let few : leb (length c.ballots) max_ballots ≡ true = (let l = h.few in ground arith) in
      joined _ (fixed-Sends 32 c.vote_id h.vote_id) (
        joined _
          (seq-Sends get_ballot-Sends (unexpected_end 32 0) c.ballots ballot_end
            (let l = h.few in omega arith) h.ballots)
          (joined _ (passed_check _ few)
            (joined _ (fixed-Sends 32 c.merkle_root h.merkle_root) (given c))))
