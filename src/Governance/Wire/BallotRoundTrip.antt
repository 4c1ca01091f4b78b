-- ===== src/Governance/Wire/BallotRoundTrip.antt =====
-- Ballot requests and responses read back, and what reading one checks.
use distributed_intranet.Base.{
  ℕ, ◌≤◌, ◌≡◌, refl, subst, ◌∙◌, Bool, true, inl, inr, List, [], ◌++◌, arith,
}
use mathlib.Core.List.{append-nil}
use distributed_intranet.Base.Tests.{leb, if◌then◌else◌, Bool-cases}
use distributed_intranet.Base.Lists.{length, All}
use distributed_intranet.Crypto.{Crypto}
use distributed_intranet.Crypto.Enc.{fixed}
use distributed_intranet.Crypto.Dec.{
  done, malformed, refused, unexpected_end, is_utf8, close, get_fixed,
}
use distributed_intranet.Crypto.Dec.Numbers.{Fits}
use distributed_intranet.Crypto.Dec.Sends.{Sends, joined, given, passed_check, tagged}
use distributed_intranet.Crypto.Dec.Primitives.{
  Reads, variant-Sends, u8-Sends, fixed-Sends, bool-Sends, seq-Sends, domain-Sends,
}
use distributed_intranet.Governance.Vote.{Ballot, ballot_verifies, encode_ballot}
use distributed_intranet.Governance.Wire.{WireError, bad_signature, max_ballots}
use distributed_intranet.Governance.Wire.Ballots.{
  BallotRequest, BallotResponse, cast, refusal, BallotRefusal, not_a_member, cannot_evaluate,
  unknown_vote, max_ballots_per_response, refusal_tag, refusal_of, get_refusal, put_ballot_request,
  encode_ballot_request, put_ballot_response, encode_ballot_response, request_verifies,
  get_ballot_request, authenticate_request, decode_ballot_request, get_verified, get_ballots,
  ballot_response_of, get_ballot_response, decode_ballot_response,
}
use distributed_intranet.Governance.Wire.Values.{IsKey, key-Sends}
use distributed_intranet.Governance.Wire.VoteValues.{IsBallot, get_ballot-Sends}

refusal-Sends :
    (reason : BallotRefusal) {e : List ℕ} → Sends e (refusal_of (refusal_tag reason)) reason e
unfolding refusal_of refusal_tag
refusal-Sends not_a_member = given not_a_member
refusal-Sends cannot_evaluate = given cannot_evaluate
refusal-Sends unknown_vote = given unknown_vote

hash_end : get_fixed {E = WireError} 32 [] ≡ malformed (unexpected_end 32 0)
unfolding get_fixed
hash_end = refl

module _ (valid_key : ℕ → Bool) (crypto : Crypto) where
  pub record IsBallotRequest (r : BallotRequest) : Type 0 where
    pub vote_id : Fits 32 r.vote_id
    pub few : length r.have ≤ max_ballots
    pub have : All (Fits 32) r.have
    pub requester : IsKey valid_key r.requester
    pub signature : Fits 64 r.signature

  request-Sends : Reads IsBallotRequest put_ballot_request (get_ballot_request valid_key crypto)
  unfolding put_ballot_request get_ballot_request
  request-Sends r h e =
      let few : leb (length r.have) max_ballots ≡ true = (let l = h.few in ground arith) in
      joined _ (fixed-Sends 32 r.vote_id h.vote_id) (
        joined _
          (seq-Sends {f = fixed 32} (λ p q m. fixed-Sends 32 p q) (unexpected_end 32 0) r.have
            hash_end (let l = h.few in omega arith) h.have)
          (joined _ (passed_check _ few) (
            joined _ (key-Sends valid_key r.requester h.requester _)
              (joined _ (fixed-Sends 64 r.signature h.signature) (given r)))))

  request_read :
      (r : BallotRequest)
      → IsBallotRequest r
      → (rest : List ℕ)
      → decode_ballot_request valid_key crypto (encode_ballot_request r ++ rest)
        ≡ authenticate_request valid_key crypto r rest
  unfolding decode_ballot_request encode_ballot_request is_utf8
  request_read r h rest =
      tagged _ (domain-Sends "intranet.wire.ballot-request.v1" (omega arith, refl))
        (request-Sends r h _) rest

  -- A well formed ballot request is read back from its own bytes if the requester's signature over
  -- it verifies, and is refused as `bad_signature` if it does not.
  pub decode_ballot_request-encode :
      (r : BallotRequest)
      → IsBallotRequest r
      → decode_ballot_request valid_key crypto (encode_ballot_request r)
        ≡ (if request_verifies valid_key crypto r then done r [] else refused bad_signature)
  unfolding authenticate_request
  decode_ballot_request-encode r h =
      subst
        (λ b. decode_ballot_request valid_key crypto b ≡ authenticate_request valid_key crypto r [])
        (append-nil (encode_ballot_request r)) (request_read r h [])
      ∙ elim (Bool-cases (request_verifies valid_key crypto r)) [
        | inl v ↦ rw v refl
        | inr v ↦ rw v refl
      ]

  abbrev pub IsCast : Ballot → Type 0
  IsCast b = IsBallot valid_key b × (ballot_verifies crypto b ≡ true)

  abbrev pub IsBallotResponse : BallotResponse → Type 0
  IsBallotResponse (cast ballots truncated) =
      (length ballots ≤ max_ballots_per_response) × All IsCast ballots
  IsBallotResponse (refusal reason) = Unit

  verified-Sends : Reads IsCast encode_ballot (get_verified valid_key crypto)
  unfolding get_verified
  verified-Sends b h e =
      joined _ (get_ballot-Sends valid_key b h.0 e) (joined _ (passed_check _ h.1) (given b))

  verified_end : get_verified valid_key crypto [] ≡ malformed (unexpected_end 32 0)
  unfolding get_verified
  verified_end = refl

  response-Sends : Reads IsBallotResponse put_ballot_response (get_ballot_response valid_key crypto)
  unfolding put_ballot_response get_ballot_response ballot_response_of get_ballots get_refusal
  response-Sends (cast ballots truncated) h e =
      let few : leb (length ballots) max_ballots_per_response ≡ true =
        (let l = h.0 in ground arith) in
      joined _ (variant-Sends 0) (
        joined _
          (seq-Sends verified-Sends (unexpected_end 32 0) ballots verified_end
            (let l = h.0 in omega arith) h.1)
          (joined _ (passed_check _ few)
            (joined _ (bool-Sends truncated) (given (cast ballots truncated)))))
  response-Sends (refusal reason) h e = joined _ (variant-Sends 1) (
      joined _ (u8-Sends (refusal_tag reason))
        (joined _ (refusal-Sends reason) (given (refusal reason))))

  response_read :
      (response : BallotResponse)
      → IsBallotResponse response
      → (rest : List ℕ)
      → decode_ballot_response valid_key crypto (encode_ballot_response response ++ rest)
        ≡ close response rest
  unfolding decode_ballot_response encode_ballot_response is_utf8
  response_read response h rest =
      tagged close (domain-Sends "intranet.wire.ballot-response.v1" (omega arith, refl))
        (response-Sends response h _) rest

  -- A refusal, or a response of at most 512 well formed ballots that their voters have signed, is
  -- read back from its own bytes.
  pub decode_ballot_response-encode :
      (response : BallotResponse)
      → IsBallotResponse response
      → decode_ballot_response valid_key crypto (encode_ballot_response response) ≡ done response []
  unfolding close
  decode_ballot_response-encode response h =
      subst (λ b. decode_ballot_response valid_key crypto b ≡ done response [])
        (append-nil (encode_ballot_response response)) (response_read response h [])
