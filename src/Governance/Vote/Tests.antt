-- ===== src/Governance/Vote/Tests.antt =====
-- An assembled certificate at three concrete ballots.
use distributed_intranet.Base.{ℕ, ◌≡◌, refl, Bool, true, false, List, [], ◌∷◌, arith}
use distributed_intranet.Base.Tests.{leb, ◌==◌, if◌then◌else◌}
use distributed_intranet.Base.Lists.{any, length}
use distributed_intranet.Base.Int.{pos}
use distributed_intranet.Crypto.{Crypto}
use distributed_intranet.Governance.Error.{ok}
use distributed_intranet.Governance.Vote.{
  VoteProposal, Ballot, passed, failed, vote_id, ballot_verifies, assemble, verify,
}
use distributed_intranet.Governance.Vote.Quorum.{approving}
use distributed_intranet.Governance.Vote.Assembly.{all_pass, sound, is_for}
use distributed_intranet.Governance.Vote.Assembled.{verify-assemble}

-- A digest that is the length of the message, and signatures that are the voter's key.
abbrev scales : Crypto
scales = record { hash_bytes = length; verify = λ key _ signature. key == signature }

abbrev proposed : VoteProposal
proposed = record {
  subject = 12;
  electorate = 115 ∷ [];
  electorate_snapshot = 5 ∷ 6 ∷ 8 ∷ [];
  snapshot_ref = 1;
  close_time = pos 100;
  quorum = 2;
}

abbrev vote_of : ℕ → Bool → Ballot
vote_of voter approve = record {
  vote_id = vote_id scales proposed;
  voter = voter;
  approve = approve;
  cast_at = pos 50;
  signature = voter;
}

-- Two ballots of one voter, who has changed their mind, and one of another.
abbrev cast_ballots : List Ballot
cast_ballots = vote_of 8 true ∷ record (vote_of 8 false) { cast_at = pos 40 } ∷ vote_of 5 true ∷ []

cast_well : all_pass (sound scales proposed) cast_ballots ≡ true
unfolding ballot_verifies vote_id
cast_well = refl

cast_for : any (is_for scales proposed) cast_ballots ≡ true
cast_for = ground arith

verify-assemble_example :
    verify scales (assemble scales proposed cast_ballots) proposed
    ≡ ok (
        if leb 2 (approving (assemble scales proposed cast_ballots).ballots)
        then passed
        else failed)
verify-assemble_example = verify-assemble scales proposed cast_ballots cast_well cast_for
