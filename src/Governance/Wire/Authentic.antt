-- ===== src/Governance/Wire/Authentic.antt =====
-- Every entry of a response that is read has been verified.
use distributed_intranet.Base.{ℕ, ◌≡◌, subst, Bool, true, List, [], ◌∷◌, arith, inl, inr}
use distributed_intranet.Base.Tests.{◌==◌, Bool-cases}
use distributed_intranet.Base.Lists.{All}
use distributed_intranet.Crypto.{Crypto}
use distributed_intranet.Crypto.Dec.{
  Parsed, done, malformed, refused, give, malform, close, finish, nested, get_variant, get_seq,
  get_fixed, get_bytes, get_bool, get_domain,
}
use distributed_intranet.Crypto.Dec.Sends.{>>=-eq-done}
use distributed_intranet.Governance.Entry.{LogEntry, verify_signature}
use distributed_intranet.Governance.Wire.{WireError, unknown}
use distributed_intranet.Governance.Wire.Entry.{decode_entry}
use distributed_intranet.Governance.Wire.Sync.{
  SyncResponse, entries, decode_all, get_hashes, get_entries, response_of, get_response,
  decode_response,
}
use distributed_intranet.Governance.Wire.RoundTrip.{decode_entry-authentic}

nested-eq-done :
    {E A : Type 0} (r : Parsed E A) (bytes : List ℕ) {x : A} {rest : List ℕ}
    → nested r bytes ≡ done x rest
    → (left : List ℕ) × (r ≡ done x left)
unfolding nested
nested-eq-done (done y left) bytes h = (left, cc)
nested-eq-done (malformed _) bytes h = cc
nested-eq-done (refused _) bytes h = cc

module _ (valid_key : ℕ → Bool) (crypto : Crypto) where
  abbrev pub AreVerified : List LogEntry → Type 0
  AreVerified sent = All (λ entry. verify_signature crypto entry ≡ true) sent

  decode_all-AreVerified :
      (bodies : List (List ℕ)) (bytes : List ℕ) {sent : List LogEntry} {rest : List ℕ}
      → decode_all valid_key crypto bodies bytes ≡ done sent rest
      → AreVerified sent
  unfolding decode_all give
  decode_all-AreVerified [] bytes {sent} h =
      subst AreVerified {x = []} {y = sent} (ground (arith, h)) tt
  decode_all-AreVerified (b ∷ more) bytes {sent} h =
      let (entry, (m, (first, h1))) =
        >>=-eq-done (nested (decode_entry valid_key crypto b)) _ bytes h in
      let (others, (n, (later, h2))) = >>=-eq-done (decode_all valid_key crypto more) _ m h1 in
      let (left, decoded) = nested-eq-done (decode_entry valid_key crypto b) bytes first in
      let same : entry ∷ others ≡ sent = cc in
      subst AreVerified same
        ((decode_entry-authentic valid_key crypto b decoded).0, decode_all-AreVerified more m later)

  abbrev pub IsVerified : SyncResponse → Type 0
  IsVerified (SyncResponse.heads _) = Unit
  IsVerified (entries sent _) = AreVerified sent

  give-IsVerified :
      (x : SyncResponse) (bytes : List ℕ) {response : SyncResponse} {rest : List ℕ}
      → give {E = WireError} x bytes ≡ done response rest
      → IsVerified x
      → IsVerified response
  unfolding give
  give-IsVerified x bytes {response} h v =
      subst IsVerified {x = x} {y = response} (ground (arith, h)) v

  get_hashes-IsVerified :
      (bytes : List ℕ) {response : SyncResponse} {rest : List ℕ}
      → get_hashes valid_key crypto bytes ≡ done response rest
      → IsVerified response
  unfolding get_hashes
  get_hashes-IsVerified bytes h =
      let (hashes, (m, (_, h1))) = >>=-eq-done (get_seq (get_fixed 32)) _ bytes h in
      give-IsVerified (SyncResponse.heads hashes) m h1 tt

  get_entries-IsVerified :
      (bytes : List ℕ) {response : SyncResponse} {rest : List ℕ}
      → get_entries valid_key crypto bytes ≡ done response rest
      → IsVerified response
  unfolding get_entries
  get_entries-IsVerified bytes h =
      let (bodies, (m, (_, h1))) = >>=-eq-done (get_seq get_bytes) _ bytes h in
      let (sent, (n, (all, h2))) = >>=-eq-done (decode_all valid_key crypto bodies) _ m h1 in
      let (truncated, (o, (_, h3))) = >>=-eq-done get_bool _ n h2 in
      give-IsVerified (entries sent truncated) o h3 (decode_all-AreVerified bodies m all)

  response_of-IsVerified :
      (v : ℕ) (bytes : List ℕ) {response : SyncResponse} {rest : List ℕ}
      → response_of valid_key crypto v bytes ≡ done response rest
      → IsVerified response
  unfolding response_of unknown malform
  response_of-IsVerified v bytes {response} {rest} h =
      let hashes = get_hashes-IsVerified bytes {response = response} {rest = rest} in
      let bodies = get_entries-IsVerified bytes {response = response} {rest = rest} in
      elim (Bool-cases (v == 0)) [
        | inl zero_tag ↦ hashes (ground arith)
        | inr other ↦ elim (Bool-cases (v == 1)) [
          | inl one_tag ↦ bodies (ground arith)
          | inr unknown_tag ↦ absurd (ground arith)
        ]
      ]

  -- Whatever the bytes: every entry of a response that is read has its author's signature.
  pub decode_response-IsVerified :
      (bytes : List ℕ) {response : SyncResponse} {rest : List ℕ}
      → decode_response valid_key crypto bytes ≡ done response rest
      → IsVerified response
  unfolding decode_response get_response close
  decode_response-IsVerified bytes h =
      let (_, (m, (_, h1))) = >>=-eq-done (get_domain "intranet.wire.sync-response.v1") _ bytes h in
      let (read, (n, (first, h2))) = >>=-eq-done (get_response valid_key crypto) close m h1 in
      let (v, (o, (_, h3))) = >>=-eq-done get_variant _ m first in
      let (_, (q, (_, h4))) = >>=-eq-done finish (λ _. give read) n h2 in
      give-IsVerified read q h4 (response_of-IsVerified v o h3)
