-- ===== src/Governance/Wire/Sync.antt =====
-- crates/intranet-governance/src/wire.rs: the requests and responses of the log's sync.
use distributed_intranet.Base.{ℕ, Bool, List, [], ◌∷◌}
use distributed_intranet.Base.Tests.{◌==◌, if◌then◌else◌}
use distributed_intranet.Crypto.{Crypto}
use distributed_intranet.Crypto.Enc.{Enc, ◌▸◌, domain, variant, seq, fixed, bytes, bool}
use distributed_intranet.Crypto.Dec.{
  Decoder, ◌>>=◌, ◌>>◌, give, get_domain, get_variant, get_seq, get_fixed, get_bytes, get_bool,
  close, nested,
}
use distributed_intranet.Governance.Entry.{LogEntry}
use distributed_intranet.Governance.Wire.{WireError, unknown}
use distributed_intranet.Governance.Wire.Entry.{encode_entry, decode_entry}

pub data SyncRequest : Type 0 where
  heads : SyncRequest
  fetch : (wanted have : List ℕ) → SyncRequest

pub data SyncResponse : Type 0 where
  heads : List ℕ → SyncResponse
  entries : (sent : List LogEntry) → (truncated : Bool) → SyncResponse

unfoldable pub put_request : SyncRequest → Enc → Enc
unfolding variant seq fixed
put_request SyncRequest.heads e = e ▸ variant 0
put_request (fetch wanted have) e = e ▸ variant 1 ▸ seq wanted (fixed 32) ▸ seq have (fixed 32)

unfoldable pub encode_request : SyncRequest → Enc
unfolding domain put_request
encode_request request = domain "intranet.wire.sync-request.v1" ▸ put_request request

unfoldable pub request_of : ℕ → Decoder WireError SyncRequest
unfolding get_seq get_fixed give unknown ◌>>=◌
request_of v =
    if v == 0
    then give SyncRequest.heads
    else if v == 1
    then (do
      wanted ← get_seq (get_fixed 32)
      have ← get_seq (get_fixed 32)
      give (fetch wanted have))
    else unknown v

unfoldable pub get_request : Decoder WireError SyncRequest
unfolding get_variant request_of ◌>>=◌
get_request = do v ← get_variant; request_of v

unfoldable pub decode_request : Decoder WireError SyncRequest
unfolding get_domain get_request close ◌>>=◌
decode_request = do get_domain "intranet.wire.sync-request.v1"; request ← get_request; close request

unfoldable pub put_wire_entry : LogEntry → Enc → Enc
unfolding encode_entry bytes
put_wire_entry entry e = e ▸ bytes (encode_entry entry)

unfoldable pub put_response : SyncResponse → Enc → Enc
unfolding variant seq fixed put_wire_entry bool
put_response (SyncResponse.heads hashes) e = e ▸ variant 0 ▸ seq hashes (fixed 32)
put_response (entries sent truncated) e = e ▸ variant 1 ▸ seq sent put_wire_entry ▸ bool truncated

unfoldable pub encode_response : SyncResponse → Enc
unfolding domain put_response
encode_response response = domain "intranet.wire.sync-response.v1" ▸ put_response response

module _ (valid_key : ℕ → Bool) (crypto : Crypto) where
  -- `.map(|bytes| decode_entry(bytes)).collect::<Result<Vec<_>, _>>()?`, which reads no more of
  -- the message
  unfoldable pub decode_all : List (List ℕ) → Decoder WireError (List LogEntry)
  unfolding decode_entry nested give ◌>>=◌
  decode_all [] = give []
  decode_all (b ∷ rest) = do
    entry ← nested (decode_entry valid_key crypto b)
    others ← decode_all rest
    give (entry ∷ others)

  unfoldable pub get_hashes : Decoder WireError SyncResponse
  unfolding get_seq get_fixed give ◌>>=◌
  get_hashes = do hashes ← get_seq (get_fixed 32); give (SyncResponse.heads hashes)

  unfoldable pub get_entries : Decoder WireError SyncResponse
  unfolding get_seq get_bytes get_bool decode_all give ◌>>=◌
  get_entries = do
    bodies ← get_seq get_bytes
    sent ← decode_all bodies
    truncated ← get_bool
    give (entries sent truncated)

  unfoldable pub response_of : ℕ → Decoder WireError SyncResponse
  unfolding get_hashes get_entries unknown
  response_of v = if v == 0 then get_hashes else if v == 1 then get_entries else unknown v

  unfoldable pub get_response : Decoder WireError SyncResponse
  unfolding get_variant response_of ◌>>=◌
  get_response = do v ← get_variant; response_of v

  unfoldable pub decode_response : Decoder WireError SyncResponse
  unfolding get_domain get_response close ◌>>=◌
  decode_response = do
    get_domain "intranet.wire.sync-response.v1"
    response ← get_response
    close response
