-- ===== src/Ledger/Audit.antt =====
-- crates/intranet-ledger/src/reliability.rs: audit requests and responses, and `respond_to_audit`. The
-- responder's signature is a parameter.
use distributed_intranet.Base.{ℕ, ◌%◌, not, Bool, Option, none, some, List, [], ◌∷◌, ◌++◌}
use distributed_intranet.Base.Tests.{leb, if◌then◌else◌}
use distributed_intranet.Base.Lists.{length, filter}
use distributed_intranet.Base.Int.{ℤ, pos, leb_ℤ}
use distributed_intranet.Base.Order.{nat_ord}
use distributed_intranet.Map.{get, insert}
use distributed_intranet.Crypto.{Crypto}
use distributed_intranet.Crypto.Enc.{Enc, ◌▸◌, domain, fixed, u64, i64}
use distributed_intranet.Crypto.Time.{Timestamp, millis_since}
use distributed_intranet.Governance.Capability.{audit_reputation}
use distributed_intranet.Governance.State.{GovernanceState, identity_holds}
use distributed_intranet.Ledger.Reliability.{PeerObservations, ReliabilityObservations, for_peer}

pub record AuditRateLimit : Type 0 where
  pub max_requests_per_window : ℕ
  pub window_millis : ℤ

unfoldable pub default_rate_limit : AuditRateLimit
default_rate_limit = record { max_requests_per_window = 6; window_millis = pos 3600000 }

pub record AuditRequest : Type 0 where
  pub requester : ℕ
  pub subject : ℕ
  pub issued_at : Timestamp
  pub signature : ℕ

unfoldable pub audit_request_payload : ℕ → ℕ → Timestamp → Enc
unfolding domain fixed i64
audit_request_payload requester subject issued_at =
    domain "intranet.reputation-audit-request.v1"
    ▸ fixed 32 requester
    ▸ fixed 32 subject
    ▸ i64 issued_at

unfoldable pub create_request : (Enc → ℕ) → ℕ → ℕ → Timestamp → AuditRequest
unfolding audit_request_payload
create_request sign requester subject issued_at = record {
  requester = requester;
  subject = subject;
  issued_at = issued_at;
  signature = sign (audit_request_payload requester subject issued_at);
}

unfoldable pub audit_request_verifies : Crypto → AuditRequest → Bool
unfolding audit_request_payload
audit_request_verifies crypto r =
    crypto.verify r.requester (audit_request_payload r.requester r.subject r.issued_at) r.signature

pub record AuditResponse : Type 0 where
  pub responder : ℕ
  pub requester : ℕ
  pub subject : ℕ
  pub observations : PeerObservations
  pub responded_at : Timestamp
  pub signature : ℕ

unfoldable pub audit_response_payload : ℕ → ℕ → ℕ → PeerObservations → Timestamp → Enc
unfolding domain fixed u64 i64
audit_response_payload responder requester subject observations responded_at =
    domain "intranet.reputation-audit-response.v1"
    ▸ fixed 32 responder
    ▸ fixed 32 requester
    ▸ fixed 32 subject
    ▸ u64 observations.verified
    ▸ u64 observations.failed
    ▸ i64 responded_at

unfoldable pub create_response :
    (Enc → ℕ) → ℕ → AuditRequest → PeerObservations → Timestamp → AuditResponse
unfolding audit_response_payload
create_response sign responder request observations responded_at = record {
  responder = responder;
  requester = request.requester;
  subject = request.subject;
  observations = observations;
  responded_at = responded_at;
  signature = sign (
      audit_response_payload responder request.requester request.subject observations responded_at);
}

unfoldable pub audit_response_verifies : Crypto → AuditResponse → Bool
unfolding audit_response_payload
audit_response_verifies crypto r =
    crypto.verify r.responder
      (audit_response_payload r.responder r.requester r.subject r.observations r.responded_at)
      r.signature

-- The `LedgerError`s of an audit, and the `Ok` response.
pub data AuditAnswer : Type 0 where
  responded : AuditResponse → AuditAnswer
  bad_signature : AuditAnswer
  audit_not_authorized : (requester : ℕ) → AuditAnswer
  audit_rate_limited : (requester max_requests : ℕ) → AuditAnswer

-- `entry(requester).or_default()`
abbrev pub history_of : Option (List Timestamp) → List Timestamp
history_of none = []
history_of (some history) = history

-- The `retain` of a requester's history.
abbrev pub in_window : AuditRateLimit → Timestamp → Timestamp → Bool
in_window policy now at = leb_ℤ (millis_since now at) policy.window_millis

-- The requests of a requester that still count against the limit.
unfoldable pub recent_requests :
    ReliabilityObservations → AuditRateLimit → Timestamp → ℕ → List Timestamp
recent_requests self policy now requester =
    filter (in_window policy now) (history_of (get requester self.audit_log))

module _ (sign : Enc → ℕ) (responder : ℕ) where
  -- What follows the two checks on the requester. The length is compared as a u32.
  unfoldable pub respond_within :
      ReliabilityObservations
      → AuditRequest
      → Timestamp
      → AuditRateLimit
      → ReliabilityObservations × AuditAnswer
  respond_within self request now policy =
      let history = recent_requests self policy now request.requester in
      if leb policy.max_requests_per_window (length history % 0x100000000)
      then (
        record self { audit_log = insert request.requester history self.audit_log },
        audit_rate_limited request.requester policy.max_requests_per_window,
      )
      else (
        record self { audit_log = insert request.requester (history ++ now ∷ []) self.audit_log },
        responded (create_response sign responder request (for_peer self request.subject) now),
      )

  unfoldable pub respond_to_audit :
      Crypto
      → GovernanceState
      → AuditRequest
      → Timestamp
      → AuditRateLimit
      → ReliabilityObservations
      → ReliabilityObservations × AuditAnswer
  unfolding respond_within
  respond_to_audit crypto state request now policy self =
      if not (audit_request_verifies crypto request)
      then (self, bad_signature)
      else if not (identity_holds state request.requester audit_reputation)
      then (self, audit_not_authorized request.requester)
      else respond_within self request now policy
