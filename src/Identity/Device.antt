-- ===== src/Identity/Device.antt =====
-- crates/intranet-identity/src/device.rs
use distributed_intranet.Base.{ℕ, not}
use distributed_intranet.Base.Tests.{◌==◌, if◌then◌else◌}
use distributed_intranet.Base.Text.{Text}
use distributed_intranet.Crypto.{Crypto}
use distributed_intranet.Crypto.Enc.{Enc, ◌▸◌, domain, fixed, str, i64}
use distributed_intranet.Crypto.Time.{Timestamp}

pub record DeviceCertificate : Type 0 where
  pub network : ℕ
  pub identity : ℕ
  pub device : ℕ
  pub label : Text
  pub issued_at : Timestamp
  pub signature : ℕ

pub record DeviceCertificateRevocation : Type 0 where
  pub network : ℕ
  pub identity : ℕ
  pub device : ℕ
  pub revoked_at : Timestamp
  pub signature : ℕ

pub data IdentityError : Type 0 where
  network_mismatch bad_signature : IdentityError

-- `Result<(), IdentityError>`
pub data Verdict : Type 0 where
  verified : Verdict
  refused : IdentityError → Verdict

certificate_payload : DeviceCertificate → Enc
unfolding domain fixed str i64
certificate_payload cert =
    domain "intranet.device-certificate.v1"
    ▸ fixed 32 cert.network
    ▸ fixed 32 cert.identity
    ▸ fixed 32 cert.device
    ▸ str cert.label
    ▸ i64 cert.issued_at

revocation_payload : DeviceCertificateRevocation → Enc
unfolding domain fixed i64
revocation_payload revocation =
    domain "intranet.device-revocation.v1"
    ▸ fixed 32 revocation.network
    ▸ fixed 32 revocation.identity
    ▸ fixed 32 revocation.device
    ▸ i64 revocation.revoked_at

module _ (crypto : Crypto) where
  unfoldable pub verify_certificate : DeviceCertificate → Verdict
  unfolding certificate_payload
  verify_certificate cert =
      if crypto.verify cert.identity (certificate_payload cert) cert.signature
      then verified
      else refused bad_signature

  unfoldable pub verify_for_network : DeviceCertificate → ℕ → Verdict
  unfolding verify_certificate
  verify_for_network cert network =
      if not (cert.network == network) then refused network_mismatch else verify_certificate cert

  unfoldable pub verify_revocation : DeviceCertificateRevocation → Verdict
  unfolding revocation_payload
  verify_revocation revocation =
      if crypto.verify revocation.identity (revocation_payload revocation) revocation.signature
      then verified
      else refused bad_signature
