-- ===== src/Governance/Wire/RoundTrip.antt =====
-- What `decode_entry` makes of bytes: of its own entries, and of any.
use distributed_intranet.Base.{
  ℕ, ◌≡◌, refl, subst, ◌∙◌, Bool, true, inl, inr, arith, some, List, [], ◌∷◌, ◌++◌,
}
use mathlib.Core.List.{append-nil}
use distributed_intranet.Base.Tests.{if◌then◌else◌, Bool-cases}
use distributed_intranet.Base.Lists.{length}
use distributed_intranet.Base.Int.{IsI64}
use distributed_intranet.Crypto.{Crypto}
use distributed_intranet.Crypto.Enc.{fixed}
use distributed_intranet.Crypto.Dec.{done, malformed, refused, trailing_bytes, give, get_domain}
use distributed_intranet.Crypto.Dec.Numbers.{Fits}
use distributed_intranet.Crypto.Dec.Sends.{joined, given, tagged, >>=-eq-done, finish-eq-done}
use distributed_intranet.Crypto.Dec.Primitives.{
  Reads, fixed-Sends, i64-Sends, option-Sends, domain-Sends,
}
use distributed_intranet.Governance.Entry.{LogEntry, verify_signature}
use distributed_intranet.Governance.Wire.{bad_signature}
use distributed_intranet.Governance.Wire.Entry.{
  put_entry, encode_entry, get_entry, authenticate, decode_entry,
}
use distributed_intranet.Governance.Wire.Values.{IsKey, key-Sends}
use distributed_intranet.Governance.Wire.Bodies.{IsBody, get_body-Sends}

module _ (valid_key : ℕ → Bool) where
  -- An entry that can be sent.
  pub record IsEntry (entry : LogEntry) : Type 0 where
    pub parent : (p : ℕ) → entry.parent ≡ some p → Fits 32 p
    pub timestamp : IsI64 entry.timestamp
    pub author : IsKey valid_key entry.author
    pub body : IsBody valid_key entry.body
    pub signature : Fits 64 entry.signature

  get_entry-Sends : Reads IsEntry put_entry (get_entry valid_key)
  unfolding put_entry get_entry
  get_entry-Sends entry h e =
      joined _ (option-Sends {f = fixed 32} (λ p q m. fixed-Sends 32 p q) entry.parent h.parent) (
        joined _ (i64-Sends entry.timestamp h.timestamp) (
          joined _ (key-Sends valid_key entry.author h.author _) (
            joined _ (get_body-Sends valid_key entry.body h.body _)
              (joined _ (fixed-Sends 64 entry.signature h.signature) (given entry)))))

  module _ (crypto : Crypto) where
    decoded :
        (entry : LogEntry)
        → IsEntry entry
        → (rest : List ℕ)
        → decode_entry valid_key crypto (encode_entry entry ++ rest)
          ≡ authenticate valid_key crypto entry rest
    unfolding decode_entry encode_entry
    decoded entry h rest =
        tagged _ (domain-Sends "intranet.wire.entry.v1" (omega arith, refl))
          (get_entry-Sends entry h _) rest

    -- Decoding the bytes of an entry whose parts are well formed gives that entry back if the author's
    -- signature over it verifies, and is refused as `bad_signature` if it does not.
    pub decode_entry-encode_entry :
        (entry : LogEntry)
        → IsEntry entry
        → decode_entry valid_key crypto (encode_entry entry)
          ≡ (if verify_signature crypto entry then done entry [] else refused bad_signature)
    unfolding authenticate
    decode_entry-encode_entry entry h =
        subst (λ b. decode_entry valid_key crypto b ≡ authenticate valid_key crypto entry [])
          (append-nil (encode_entry entry)) (decoded entry h [])
        ∙ elim (Bool-cases (verify_signature crypto entry)) [
          | inl v ↦ rw v refl
          | inr v ↦ rw v refl
        ]

    -- Anything after the bytes of a well formed entry makes the message malformed.
    pub decode_entry-trailing :
        (entry : LogEntry)
        → IsEntry entry
        → (b : ℕ) (more : List ℕ)
        → decode_entry valid_key crypto (encode_entry entry ++ b ∷ more)
          ≡ malformed (trailing_bytes (length (b ∷ more)))
    unfolding authenticate
    decode_entry-trailing entry h b more = decoded entry h (b ∷ more)

    authenticate-eq-done :
        (entry : LogEntry) (bytes : List ℕ) {e : LogEntry} {rest : List ℕ}
        → authenticate valid_key crypto entry bytes ≡ done e rest
        → (verify_signature crypto e ≡ true) × (rest ≡ [])
    unfolding authenticate give
    authenticate-eq-done entry bytes h = ground (arith, finish-eq-done bytes)

    -- Whatever the bytes: an entry that `decode_entry` gives has its author's signature, and nothing
    -- is left after it.
    pub decode_entry-authentic :
        (bytes : List ℕ) {entry : LogEntry} {rest : List ℕ}
        → decode_entry valid_key crypto bytes ≡ done entry rest
        → (verify_signature crypto entry ≡ true) × (rest ≡ [])
    unfolding decode_entry
    decode_entry-authentic bytes h =
        let (_, (m, (_, h1))) = >>=-eq-done (get_domain "intranet.wire.entry.v1") _ bytes h in
        let (e, (n, (_, h2))) =
          >>=-eq-done (get_entry valid_key) (authenticate valid_key crypto) m h1 in
        authenticate-eq-done e n h2
