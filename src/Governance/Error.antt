-- ===== src/Governance/Error.antt =====
-- crates/intranet-governance/src/error.rs: refusals as values. Of the texts that a refusal carries
-- for a person, identities and digests are kept whole, and reasons are constructors.
use distributed_intranet.Base.{ℕ, ◌≡◌, refl, Bool, true, false}
use distributed_intranet.Base.Text.{Text}
use distributed_intranet.Governance.Capability.{Capability, GroupId}

-- the reasons of `InvalidQuorumCertificate`
pub data CertificateFault : Type 0 where
  other_proposal no_ballots ballot_for_other_proposal : CertificateFault
  ballot_signature outside_electorate after_close repeated_voter : ℕ → CertificateFault
  wrong_root no_vote_authorizes wrong_electorate no_open_vote below_quorum : CertificateFault

pub data GovernanceError : Type 0 where
  expected_genesis unexpected_genesis missing_parent bad_signature : GovernanceError
  everyone_unrestricted incoherent_policy bad_device_record : GovernanceError
  unknown_parent not_a_member : ℕ → GovernanceError
  unauthorized : ℕ → Capability → GovernanceError
  unknown_group : GroupId → GovernanceError
  unregistered_extension_capability : Text → GovernanceError
  everyone_governance_tier : Capability → GovernanceError
  device_record_author_mismatch network_mismatch : ℕ → ℕ → GovernanceError
  not_in_group : ℕ → GroupId → GovernanceError
  invalid_quorum_certificate : CertificateFault → GovernanceError

-- `Result<A, GovernanceError>`
pub data Result {ℓ} (A : Type ℓ) : Type ℓ where
  err : GovernanceError → Result A
  ok : A → Result A

-- `if !test { return Err(why) }`
abbrev pub guard : Bool → GovernanceError → Result (Unit {0})
guard false why = err why
guard true _ = ok tt

-- The `?` operator, and its form for a value that nothing reads.
infixl 5 ◌>>=◌ ◌>>◌
abbrev pub ◌>>=◌ {κ ℓ} : {A : Type κ} {B : Type ℓ} → Result A → (A → Result B) → Result B
err why >>= next = err why
ok value >>= next = next value

abbrev pub ◌>>◌ {ℓ} : {A : Type ℓ} → Result (Unit {0}) → Result A → Result A
checked >> later = checked >>= λ _. later

-- A chain that succeeds has succeeded at its first step and then at the rest.
pub >>=-eq-ok {κ ℓ} :
    {A : Type κ} {B : Type ℓ} (first : Result A) (next : A → Result B) {end : B}
    → first >>= next ≡ ok end
    → (value : A) × (first ≡ ok value) × (next value ≡ ok end)
>>=-eq-ok (err why) next e = cc
>>=-eq-ok (ok value) next e = (value, refl, e)

pub guard-eq-ok :
    (test : Bool) (why : GovernanceError) {u : Unit {0}} → guard test why ≡ ok u → test ≡ true
guard-eq-ok false why e = cc
guard-eq-ok true why e = refl
