-- ===== src/Governance/Wire/Votes.antt =====
-- crates/intranet-governance/src/wire.rs: `get_proposal`, `get_certificate`.
use distributed_intranet.Base.{ℕ, Bool}
use distributed_intranet.Base.Tests.{leb}
use distributed_intranet.Base.Lists.{length}
use distributed_intranet.Base.Order.{nat_ord}
use distributed_intranet.Map.Collect.{collect_set}
use distributed_intranet.Crypto.Dec.{
  Decoder, ◌>>=◌, ◌>>◌, give, refuse, check, get_fixed, get_str, get_seq, get_i64, get_u32,
  get_bool,
}
use distributed_intranet.Governance.Vote.{VoteProposal, Ballot, QuorumCertificate}
use distributed_intranet.Governance.Wire.{
  WireError, too_many_entries, max_electorate, max_ballots, get_key,
}

module _ (valid_key : ℕ → Bool) where
  unfoldable pub get_proposal : Decoder WireError VoteProposal
  unfolding get_fixed get_str get_seq get_key get_i64 get_u32 collect_set refuse check give ◌>>=◌
  get_proposal = do
    subject ← get_fixed 32
    electorate ← get_str
    voters ← get_seq (get_key valid_key)
    check (leb (length voters) max_electorate)
        (refuse (too_many_entries (length voters) max_electorate))
    snapshot_ref ← get_fixed 32
    close_time ← get_i64
    quorum ← get_u32
    give (record {
      subject = subject;
      electorate = electorate;
      electorate_snapshot = collect_set voters;
      snapshot_ref = snapshot_ref;
      close_time = close_time;
      quorum = quorum;
    })

  unfoldable pub get_ballot : Decoder WireError Ballot
  unfolding get_fixed get_key get_bool get_i64 give ◌>>=◌
  get_ballot = do
    vote_id ← get_fixed 32
    voter ← get_key valid_key
    approve ← get_bool
    cast_at ← get_i64
    signature ← get_fixed 64
    give (record {
      vote_id = vote_id;
      voter = voter;
      approve = approve;
      cast_at = cast_at;
      signature = signature;
    })

  unfoldable pub get_certificate : Decoder WireError QuorumCertificate
  unfolding get_fixed get_seq get_ballot refuse check give ◌>>=◌
  get_certificate = do
    vote_id ← get_fixed 32
    ballots ← get_seq get_ballot
    check (leb (length ballots) max_ballots)
        (refuse (too_many_entries (length ballots) max_ballots))
    merkle_root ← get_fixed 32
    give (record { vote_id = vote_id; ballots = ballots; merkle_root = merkle_root })
