-- ===== src/Governance/Wire/SyncRoundTrip.antt =====
-- What the reader of a sync message makes of its encoder's bytes, and of any.
use distributed_intranet.Base.{
  ℕ, suc, ◌≡◌, refl, sym, ap, subst, ◌∙◌, Bool, true, List, [], ◌∷◌, ◌++◌, map, arith,
}
use mathlib.Core.List.{append-nil}
use distributed_intranet.Base.Lists.{length, All}
use distributed_intranet.Crypto.{Crypto}
use distributed_intranet.Crypto.Enc.{Enc, seq, each, fixed, bytes}
use distributed_intranet.Crypto.Dec.{
  done, malformed, unexpected_end, ◌>>=◌, give, close, nested, is_utf8, get_seq, get_fixed,
  get_bytes,
}
use distributed_intranet.Crypto.Dec.Numbers.{Fits}
use distributed_intranet.Crypto.Dec.Sends.{Sends, joined, given, tagged}
use distributed_intranet.Crypto.Dec.Primitives.{
  variant-Sends, fixed-Sends, bytes-Sends, bool-Sends, seq-Sends, domain-Sends,
}
use distributed_intranet.Governance.Entry.{LogEntry, verify_signature}
use distributed_intranet.Governance.Wire.{WireError}
use distributed_intranet.Governance.Wire.Entry.{encode_entry, decode_entry}
use distributed_intranet.Governance.Wire.Sync.{
  SyncRequest, SyncResponse, fetch, entries, put_request, encode_request, request_of, get_request,
  decode_request, put_wire_entry, put_response, encode_response, decode_all, response_of,
  get_hashes, get_entries, get_response, decode_response,
}
use distributed_intranet.Governance.Wire.RoundTrip.{IsEntry, decode_entry-encode_entry}

abbrev pub AreHashes : List ℕ → Type 0
AreHashes hashes = Fits 8 (length hashes) × All (Fits 32) hashes

abbrev pub IsRequest : SyncRequest → Type 0
IsRequest SyncRequest.heads = Unit
IsRequest (fetch wanted have) = AreHashes wanted × AreHashes have

fixed_end : get_fixed {E = WireError} 32 [] ≡ malformed (unexpected_end 32 0)
unfolding get_fixed
fixed_end = refl

hashes-Sends :
    (hashes : List ℕ) {e : List ℕ}
    → AreHashes hashes
    → Sends {E = WireError} e (get_seq (get_fixed 32)) hashes (seq hashes (fixed 32) e)
hashes-Sends hashes h =
    seq-Sends {f = fixed 32} (λ p q m. fixed-Sends 32 p q) (unexpected_end 32 0) hashes fixed_end
      h.0 h.1

request-Sends :
    (request : SyncRequest) {e : List ℕ}
    → IsRequest request
    → Sends e get_request request (put_request request e)
unfolding get_request put_request request_of
request-Sends SyncRequest.heads h = joined _ (variant-Sends 0) (given SyncRequest.heads)
request-Sends (fetch wanted have) h = joined _ (variant-Sends 1) (
    joined _ (hashes-Sends wanted h.0)
      (joined _ (hashes-Sends have h.1) (given (fetch wanted have))))

request_read :
    (request : SyncRequest)
    → IsRequest request
    → (rest : List ℕ) → decode_request (encode_request request ++ rest) ≡ close request rest
unfolding decode_request encode_request is_utf8
request_read request h rest =
    tagged close (domain-Sends "intranet.wire.sync-request.v1" (omega arith, refl))
      (request-Sends request h) rest

-- A request with digests of 32 bytes is read back from its own bytes.
pub decode_request-encode_request :
    (request : SyncRequest)
    → IsRequest request
    → decode_request (encode_request request) ≡ done request []
unfolding close
decode_request-encode_request request h =
    subst (λ b. decode_request b ≡ done request []) (append-nil (encode_request request))
      (request_read request h [])

module _ (valid_key : ℕ → Bool) (crypto : Crypto) where
  -- An entry that can be sent in a response, and is signed by its author.
  pub record IsSigned (entry : LogEntry) : Type 0 where
    pub sendable : IsEntry valid_key entry
    pub fits : Fits 8 (length (encode_entry entry))
    pub signed : verify_signature crypto entry ≡ true

  abbrev pub IsResponse : SyncResponse → Type 0
  IsResponse (SyncResponse.heads hashes) = AreHashes hashes
  IsResponse (entries sent truncated) = Fits 8 (length sent) × All IsSigned sent

  decode_one :
      (entry : LogEntry)
      → IsSigned entry
      → decode_entry valid_key crypto (encode_entry entry) ≡ done entry []
  decode_one entry h =
      decode_entry-encode_entry valid_key crypto entry h.sendable ∙ rw h.signed refl

  decode_all-encode :
      (sent : List LogEntry) (rest : List ℕ)
      → All IsSigned sent
      → decode_all valid_key crypto (map encode_entry sent) rest ≡ done sent rest
  unfolding decode_all nested give ◌>>=◌
  decode_all-encode [] rest h = refl
  decode_all-encode (entry ∷ others) rest h =
      rw (decode_one entry h.0, ◌>>=◌, decode_all-encode others rest h.1) refl

  all-Sends :
      (sent : List LogEntry) {e : List ℕ}
      → All IsSigned sent
      → Sends e (decode_all valid_key crypto (map encode_entry sent)) sent e
  all-Sends sent {e} h = record {
    sent = [];
    appended = sym (append-nil e);
    reads = λ rest. decode_all-encode sent rest h;
  }

  all_fit :
      (sent : List LogEntry)
      → All IsSigned sent
      → All (λ b. Fits 8 (length b)) (map encode_entry sent)
  all_fit [] h = tt
  all_fit (entry ∷ others) h = (h.0.fits, all_fit others h.1)

length-map : {A B : Type 0} (f : A → B) (xs : List A) → length (map f xs) ≡ length xs
length-map f [] = refl
length-map f (x ∷ xs) = ap suc (length-map f xs)

each-map :
    (sent : List LogEntry) (e : Enc)
    → each (map encode_entry sent) bytes e ≡ each sent put_wire_entry e
unfolding each put_wire_entry
each-map [] e = refl
each-map (entry ∷ others) e = each-map others _

seq-map :
    (sent : List LogEntry) (e : Enc)
    → seq (map encode_entry sent) bytes e ≡ seq sent put_wire_entry e
unfolding seq
seq-map sent e = rw (length-map encode_entry sent) (each-map sent _)

bytes_end : get_bytes {E = WireError} [] ≡ malformed (unexpected_end 8 0)
unfolding get_bytes
bytes_end = refl

module _ (valid_key : ℕ → Bool) (crypto : Crypto) where
  bodies-Sends :
      (sent : List LogEntry) {e : List ℕ}
      → Fits 8 (length sent)
      → All (IsSigned valid_key crypto) sent
      → Sends {E = WireError} e
          (get_seq get_bytes)
          (map encode_entry sent)
          (seq sent put_wire_entry e)
  bodies-Sends sent {e} l h =
      subst (λ b. Sends {E = WireError} e (get_seq get_bytes) (map encode_entry sent) b)
        (seq-map sent e)
        (seq-Sends bytes-Sends (unexpected_end 8 0) (map encode_entry sent) bytes_end
          (omega (arith, length-map encode_entry sent)) (all_fit valid_key crypto sent h))

  response-Sends :
      (response : SyncResponse) {e : List ℕ}
      → IsResponse valid_key crypto response
      → Sends e (get_response valid_key crypto) response (put_response response e)
  unfolding get_response put_response response_of get_hashes get_entries
  response-Sends (SyncResponse.heads hashes) h =
      joined _ (variant-Sends 0)
        (joined _ (hashes-Sends hashes h) (given (SyncResponse.heads hashes)))
  response-Sends (entries sent truncated) h = joined _ (variant-Sends 1) (
      joined _ (bodies-Sends sent h.0 h.1) (
        joined _ (all-Sends valid_key crypto sent h.1)
          (joined _ (bool-Sends truncated) (given (entries sent truncated)))))

  response_read :
      (response : SyncResponse)
      → IsResponse valid_key crypto response
      → (rest : List ℕ)
      → decode_response valid_key crypto (encode_response response ++ rest) ≡ close response rest
  unfolding decode_response encode_response is_utf8
  response_read response h rest =
      tagged close (domain-Sends "intranet.wire.sync-response.v1" (omega arith, refl))
        (response-Sends response h) rest

  -- A response of digests of 32 bytes, or of well formed entries that their authors have signed, is
  -- read back from its own bytes.
  pub decode_response-encode_response :
      (response : SyncResponse)
      → IsResponse valid_key crypto response
      → decode_response valid_key crypto (encode_response response) ≡ done response []
  unfolding close
  decode_response-encode_response response h =
      subst (λ b. decode_response valid_key crypto b ≡ done response [])
        (append-nil (encode_response response)) (response_read response h [])
