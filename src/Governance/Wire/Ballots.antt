-- ===== src/Governance/Wire/Ballots.antt =====
-- crates/intranet-governance/src/wire.rs: the requests and responses by which ballots are collected.
use distributed_intranet.Base.{ℕ, Bool, List}
use distributed_intranet.Base.Tests.{leb, ◌==◌, if◌then◌else◌}
use distributed_intranet.Base.Lists.{length}
use distributed_intranet.Crypto.{Crypto}
use distributed_intranet.Crypto.Enc.{Enc, ◌▸◌, domain, variant, seq, fixed, u8, bool}
use distributed_intranet.Crypto.Dec.{
  Decoder, ◌>>=◌, ◌>>◌, give, check, refuse, finish, close, get_domain, get_variant, get_u8,
  get_seq, get_fixed, get_bool,
}
use distributed_intranet.Governance.Vote.{Ballot, ballot_verifies, encode_ballot}
use distributed_intranet.Governance.Wire.{
  WireError, unknown, bad_signature, too_many_entries, max_ballots, get_key,
}
use distributed_intranet.Governance.Wire.Votes.{get_ballot}

abbrev pub max_ballots_per_response : ℕ
max_ballots_per_response = 512

pub record BallotRequest : Type 0 where
  pub vote_id : ℕ
  pub have : List ℕ
  pub requester : ℕ
  pub signature : ℕ

unfoldable pub request_payload : BallotRequest → Enc
unfolding domain fixed seq
request_payload r =
    domain "intranet.ballot-request.v1"
    ▸ fixed 32 r.vote_id
    ▸ seq r.have (fixed 32)
    ▸ fixed 32 r.requester

unfoldable pub put_ballot_request : BallotRequest → Enc → Enc
unfolding fixed seq
put_ballot_request r e =
    e ▸ fixed 32 r.vote_id ▸ seq r.have (fixed 32) ▸ fixed 32 r.requester ▸ fixed 64 r.signature

unfoldable pub encode_ballot_request : BallotRequest → Enc
unfolding domain put_ballot_request
encode_ballot_request r = domain "intranet.wire.ballot-request.v1" ▸ put_ballot_request r

pub data BallotRefusal : Type 0 where
  not_a_member cannot_evaluate unknown_vote : BallotRefusal

pub data BallotResponse : Type 0 where
  cast : (ballots : List Ballot) → (truncated : Bool) → BallotResponse
  refusal : BallotRefusal → BallotResponse

unfoldable pub refusal_tag : BallotRefusal → ℕ
refusal_tag not_a_member = 0
refusal_tag cannot_evaluate = 1
refusal_tag unknown_vote = 2

unfoldable pub put_ballot_response : BallotResponse → Enc → Enc
unfolding variant seq encode_ballot bool u8 refusal_tag
put_ballot_response (cast ballots truncated) e =
    e ▸ variant 0 ▸ seq ballots encode_ballot ▸ bool truncated
put_ballot_response (refusal reason) e = e ▸ variant 1 ▸ u8 (refusal_tag reason)

unfoldable pub encode_ballot_response : BallotResponse → Enc
unfolding domain put_ballot_response
encode_ballot_response response =
    domain "intranet.wire.ballot-response.v1" ▸ put_ballot_response response

unfoldable pub refusal_of : ℕ → Decoder WireError BallotRefusal
unfolding give unknown
refusal_of t =
    if t == 0
    then give not_a_member
    else if t == 1
    then give cannot_evaluate
    else if t == 2
    then give unknown_vote
    else unknown t

unfoldable pub get_refusal : Decoder WireError BallotResponse
unfolding get_u8 refusal_of give ◌>>=◌
get_refusal = do t ← get_u8; reason ← refusal_of t; give (refusal reason)

module _ (valid_key : ℕ → Bool) (crypto : Crypto) where
  -- `BallotRequest::verify`
  unfoldable pub request_verifies : BallotRequest → Bool
  unfolding request_payload
  request_verifies r = crypto.verify r.requester (request_payload r) r.signature

  unfoldable pub get_ballot_request : Decoder WireError BallotRequest
  unfolding get_fixed get_seq get_key check refuse give ◌>>=◌
  get_ballot_request = do
    vote_id ← get_fixed 32
    have ← get_seq (get_fixed 32)
    check (leb (length have) max_ballots) (refuse (too_many_entries (length have) max_ballots))
    requester ← get_key valid_key
    signature ← get_fixed 64
    give (record { vote_id = vote_id; have = have; requester = requester; signature = signature })

  unfoldable pub authenticate_request : BallotRequest → Decoder WireError BallotRequest
  unfolding finish request_verifies check refuse give ◌>>=◌
  authenticate_request r = do finish; check (request_verifies r) (refuse bad_signature); give r

  unfoldable pub decode_ballot_request : Decoder WireError BallotRequest
  unfolding get_domain get_ballot_request authenticate_request ◌>>=◌
  decode_ballot_request = do
    get_domain "intranet.wire.ballot-request.v1"
    r ← get_ballot_request
    authenticate_request r

  unfoldable pub get_verified : Decoder WireError Ballot
  unfolding get_ballot ballot_verifies check refuse give ◌>>=◌
  get_verified = do
    b ← get_ballot valid_key
    check (ballot_verifies crypto b) (refuse bad_signature)
    give b

  unfoldable pub get_ballots : Decoder WireError BallotResponse
  unfolding get_seq get_verified get_bool check refuse give ◌>>=◌
  get_ballots = do
    ballots ← get_seq get_verified
    check (leb (length ballots) max_ballots_per_response)
        (refuse (too_many_entries (length ballots) max_ballots_per_response))
    truncated ← get_bool
    give (cast ballots truncated)

  unfoldable pub ballot_response_of : ℕ → Decoder WireError BallotResponse
  unfolding get_ballots get_refusal unknown
  ballot_response_of v = if v == 0 then get_ballots else if v == 1 then get_refusal else unknown v

  unfoldable pub get_ballot_response : Decoder WireError BallotResponse
  unfolding get_variant ballot_response_of ◌>>=◌
  get_ballot_response = do v ← get_variant; ballot_response_of v

  unfoldable pub decode_ballot_response : Decoder WireError BallotResponse
  unfolding get_domain get_ballot_response close ◌>>=◌
  decode_ballot_response = do
    get_domain "intranet.wire.ballot-response.v1"
    response ← get_ballot_response
    close response
