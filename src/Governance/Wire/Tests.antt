-- ===== src/Governance/Wire/Tests.antt =====
-- Two entries on the wire, and what a reader makes of them.
use distributed_intranet.Base.{ℕ, ◌≡◌, refl, Bool, true, some, none, List, [], ◌∷◌, ◌++◌, arith}
use distributed_intranet.Base.Tests.{if◌then◌else◌}
use distributed_intranet.Base.Lists.{length}
use distributed_intranet.Base.Int.{pos}
use distributed_intranet.Base.Text.{bytes_of}
use distributed_intranet.Crypto.{Crypto}
use distributed_intranet.Crypto.Dec.{done, malformed, refused, trailing_bytes, is_utf8}
use distributed_intranet.Governance.Capability.{everyone, read_content, publish}
use distributed_intranet.Governance.Policy.{conservative_default}
use distributed_intranet.Governance.Entry.{
  LogEntry, EntryBody, add, entry_payload, encode_body, verify_signature,
}
use distributed_intranet.Governance.Vote.{Ballot, ballot_verifies}
use distributed_intranet.Governance.Wire.{bad_signature}
use distributed_intranet.Governance.Wire.Entry.{encode_entry, decode_entry}
use distributed_intranet.Governance.Wire.Sync.{
  SyncRequest, SyncResponse, entries, fetch, encode_request, decode_request, encode_response,
  decode_response,
}
use distributed_intranet.Governance.Wire.Ballots.{
  BallotRequest, cast, encode_ballot_request, decode_ballot_request, request_verifies,
  encode_ballot_response, decode_ballot_response,
}
use distributed_intranet.Governance.Wire.Body.{put_body}
use distributed_intranet.Governance.Wire.Bodies.{put_body-eq-encode_body}
use distributed_intranet.Governance.Wire.PolicyValues.{IsPolicy}
use distributed_intranet.Governance.Wire.RoundTrip.{
  IsEntry, decode_entry-encode_entry, decode_entry-trailing, decode_entry-authentic,
}
use distributed_intranet.Governance.Wire.Signed.{entry_payload_injective}
use distributed_intranet.Governance.Wire.SyncRoundTrip.{
  IsSigned, decode_request-encode_request, decode_response-encode_response,
}
use distributed_intranet.Governance.Wire.Authentic.{IsVerified, decode_response-IsVerified}
use distributed_intranet.Governance.Wire.BallotRoundTrip.{
  decode_ballot_request-encode, decode_ballot_response-encode,
}

abbrev tape : Crypto
tape = record { hash_bytes = length; verify = λ _ _ _. true }

abbrev any_key : ℕ → Bool
any_key _ = true

abbrev founding : LogEntry
founding = record {
  parent = none;
  timestamp = pos 10;
  author = 5;
  body = EntryBody.genesis 7 conservative_default (read_content ∷ publish (bytes_of "text") ∷ []);
  signature = 9;
}

abbrev admission : LogEntry
admission = record {
  parent = some 77;
  timestamp = pos 20;
  author = 5;
  body = EntryBody.membership_change everyone 6 (add (some (record { invite_id = 3; issuer = 5 })));
  signature = 8;
}

default-IsPolicy : IsPolicy conservative_default
unfolding is_utf8
default-IsPolicy = record {
  model = tt;
  allowlist = (
    (
      (refl, (refl, (refl, (refl, tt)))),
      ((refl, (refl, (refl, tt))), ((refl, (refl, tt)), ((refl, tt), (tt, tt)))),
    ),
    (
      omega arith,
      (
        (omega arith, refl),
        (
          (omega arith, refl),
          ((omega arith, refl), ((omega arith, refl), ((omega arith, refl), tt))),
        ),
      ),
    ),
  );
  extensions = (tt, (omega arith, tt));
  values = (tt, (omega arith, tt));
  relays = (omega arith, tt);
  k = omega arith;
  t_millis = (omega arith, omega arith);
  replication = omega arith;
  chunk_size = omega arith;
}

founding-IsEntry : IsEntry any_key founding
unfolding is_utf8
founding-IsEntry = record {
  parent = λ p e. cc;
  timestamp = (omega arith, omega arith);
  author = (omega arith, refl);
  body = (
    omega arith,
    (default-IsPolicy, (((refl, tt), (tt, tt)), (omega arith, (tt, ((omega arith, refl), tt))))),
  );
  signature = omega arith;
}

admission-IsEntry : IsEntry any_key admission
unfolding is_utf8
admission-IsEntry = record {
  parent = λ p e. ground arith;
  timestamp = (omega arith, omega arith);
  author = (omega arith, refl);
  body = ((omega arith, refl), ((omega arith, refl), λ p e. (ground arith, (ground arith, refl))));
  signature = omega arith;
}

decode_entry-encode_entry_example :
    decode_entry any_key tape (encode_entry founding)
    ≡ (if verify_signature tape founding then done founding [] else refused bad_signature)
decode_entry-encode_entry_example = decode_entry-encode_entry any_key tape founding founding-IsEntry

decode_entry-trailing_example :
    decode_entry any_key tape (encode_entry admission ++ 1 ∷ 2 ∷ [])
    ≡ malformed (trailing_bytes (length {A = ℕ} (1 ∷ 2 ∷ [])))
decode_entry-trailing_example =
    decode_entry-trailing any_key tape admission admission-IsEntry 1 (2 ∷ [])

founding_decoded : decode_entry any_key tape (encode_entry founding) ≡ done founding []
unfolding verify_signature
founding_decoded = decode_entry-encode_entry any_key tape founding founding-IsEntry

abbrev nothing_left : List ℕ
nothing_left = []

decode_entry-authentic_example : (verify_signature tape founding ≡ true) × (nothing_left ≡ [])
decode_entry-authentic_example =
    decode_entry-authentic any_key tape (encode_entry founding) founding_decoded

put_body-eq-encode_body_example :
    put_body founding.body (1 ∷ []) ≡ encode_body founding.body (1 ∷ [])
put_body-eq-encode_body_example = put_body-eq-encode_body founding.body (1 ∷ [])

resigned : LogEntry
resigned = record admission { signature = 4 }

resigned-IsEntry : IsEntry any_key resigned
unfolding resigned
resigned-IsEntry = record {
  parent = admission-IsEntry.parent;
  timestamp = admission-IsEntry.timestamp;
  author = admission-IsEntry.author;
  body = admission-IsEntry.body;
  signature = omega arith;
}

same_payload : entry_payload admission ≡ entry_payload resigned
unfolding entry_payload resigned
same_payload = refl

entry_payload_injective_example : record admission { signature = resigned.signature } ≡ resigned
entry_payload_injective_example =
    entry_payload_injective any_key admission resigned admission-IsEntry resigned-IsEntry
      same_payload

abbrev wanted_request : SyncRequest
wanted_request = fetch (3 ∷ 4 ∷ []) (5 ∷ [])

decode_request-encode_request_example :
    decode_request (encode_request wanted_request) ≡ done wanted_request []
decode_request-encode_request_example =
    decode_request-encode_request wanted_request
      ((omega arith, (omega arith, (omega arith, tt))), (omega arith, (omega arith, tt)))

founding-IsSigned : IsSigned any_key tape founding
unfolding verify_signature encode_entry
founding-IsSigned = record { sendable = founding-IsEntry; fits = omega arith; signed = refl }

abbrev one_entry : SyncResponse
one_entry = entries (founding ∷ []) true

decode_response-encode_response_example :
    decode_response any_key tape (encode_response one_entry) ≡ done one_entry []
decode_response-encode_response_example =
    decode_response-encode_response any_key tape one_entry (omega arith, (founding-IsSigned, tt))

decode_response-IsVerified_example : IsVerified any_key tape one_entry
decode_response-IsVerified_example =
    decode_response-IsVerified any_key tape (encode_response one_entry) (
      decode_response-encode_response any_key tape one_entry (omega arith, (founding-IsSigned, tt)))

abbrev asking : BallotRequest
asking = record { vote_id = 3; have = 4 ∷ []; requester = 5; signature = 6 }

decode_ballot_request-encode_example :
    decode_ballot_request any_key tape (encode_ballot_request asking)
    ≡ (if request_verifies any_key tape asking then done asking [] else refused bad_signature)
decode_ballot_request-encode_example = decode_ballot_request-encode any_key tape asking (record {
  vote_id = omega arith;
  few = omega arith;
  have = (omega arith, tt);
  requester = (omega arith, refl);
  signature = omega arith;
})

abbrev vote_cast : Ballot
vote_cast = record { vote_id = 3; voter = 5; approve = true; cast_at = pos 9; signature = 6 }

decode_ballot_response-encode_example :
    decode_ballot_response any_key tape (encode_ballot_response (cast (vote_cast ∷ []) true))
    ≡ done (cast (vote_cast ∷ []) true) []
unfolding ballot_verifies
decode_ballot_response-encode_example =
    decode_ballot_response-encode any_key tape (cast (vote_cast ∷ []) true) (
      omega arith,
      (
        (
          record {
            vote_id = omega arith;
            voter = (omega arith, refl);
            cast_at = (omega arith, omega arith);
            signature = omega arith;
          },
          refl,
        ),
        tt,
      ),
    )
