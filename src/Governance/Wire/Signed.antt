-- ===== src/Governance/Wire/Signed.antt =====
-- What a signature over an entry commits to.
use distributed_intranet.Base.{ℕ, ◌≡◌, refl, ap, subst, Bool, List, [], arith}
use distributed_intranet.Crypto.Enc.{fixed}
use distributed_intranet.Crypto.Dec.{
  Decoder, done, ◌>>=◌, ◌>>◌, give, get_domain, get_option, get_fixed, get_i64, is_utf8,
}
use distributed_intranet.Crypto.Dec.Sends.{Sends, joined, given}
use distributed_intranet.Crypto.Dec.Primitives.{
  fixed-Sends, i64-Sends, option-Sends, domain-Sends, whole,
}
use distributed_intranet.Governance.Entry.{LogEntry, EntryBody, entry_payload, encode_body}
use distributed_intranet.Governance.Wire.{WireError, get_key}
use distributed_intranet.Governance.Wire.Body.{get_body}
use distributed_intranet.Governance.Wire.Values.{key-Sends}
use distributed_intranet.Governance.Wire.Bodies.{IsBody, get_body-Sends, put_body-eq-encode_body}
use distributed_intranet.Governance.Wire.RoundTrip.{IsEntry}

module _ (valid_key : ℕ → Bool) where
  -- A reader of the bytes that are signed, which completes the entry with a signature.
  abbrev read_payload : ℕ → Decoder WireError LogEntry
  unfolding get_domain get_option get_fixed get_i64 get_key get_body give ◌>>=◌
  read_payload signature = do
    get_domain "intranet.governance-entry.v1"
    parent ← get_option (get_fixed 32)
    timestamp ← get_i64
    author ← get_key valid_key
    body ← get_body valid_key
    give (record {
      parent = parent;
      timestamp = timestamp;
      author = author;
      body = body;
      signature = signature;
    })

  signed_body-Sends :
      (body : EntryBody) {e : List ℕ}
      → IsBody valid_key body
      → Sends e (get_body valid_key) body (encode_body body e)
  signed_body-Sends body {e} h =
      subst (λ l. Sends e (get_body valid_key) body l) (put_body-eq-encode_body body e)
        (get_body-Sends valid_key body h e)

  payload_read :
      (entry : LogEntry) (signature : ℕ)
      → IsEntry valid_key entry
      → read_payload signature (entry_payload entry)
        ≡ done (record entry { signature = signature }) []
  unfolding entry_payload is_utf8 read_payload ◌>>=◌
  payload_read entry signature h = whole (
      joined _ (domain-Sends "intranet.governance-entry.v1" (omega arith, refl)) (
        joined _ (option-Sends {f = fixed 32} (λ p q m. fixed-Sends 32 p q) entry.parent h.parent) (
          joined _ (i64-Sends entry.timestamp h.timestamp) (
            joined _ (key-Sends valid_key entry.author h.author _) (
              joined _ (signed_body-Sends entry.body h.body)
                (given (record entry { signature = signature })))))))

  -- Two well formed entries with the same signed payload differ at most in their signatures.
  pub entry_payload_injective :
      (a b : LogEntry)
      → IsEntry valid_key a
      → IsEntry valid_key b
      → entry_payload a ≡ entry_payload b
      → record a { signature = b.signature } ≡ b
  entry_payload_injective a b h k same = cc (
    payload_read a b.signature h,
    payload_read b b.signature k,
    ap (read_payload b.signature) same,
  )
