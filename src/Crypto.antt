-- ===== src/Crypto.antt =====
-- crates/intranet-crypto: the canonical encoding (enc.rs), hashes and Merkle roots (hash.rs),
-- signatures (sign.rs) and timestamps (time.rs).
--
-- BLAKE3 and Ed25519 are third-party crates: a `Crypto` is any pair of functions in their place.
-- Digests, keys, identities and pointers are byte arrays; here they are the numbers that they are
-- in big-endian, so that the order of the arrays is the order of the numbers.
pub mod Enc
pub mod Dec
pub mod Time
pub mod Merkle
pub mod Tests
use distributed_intranet.Base.{ℕ, Bool, List}

pub record Crypto : Type 0 where
  -- `blake3::hash`
  pub hash_bytes : List ℕ → ℕ
  -- `ed25519_dalek::VerifyingKey::verify`: key, message, signature
  pub verify : ℕ → List ℕ → ℕ → Bool
