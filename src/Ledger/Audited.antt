-- ===== src/Ledger/Audited.antt =====
-- The conditions of an answered audit, and what the answer leaves behind.
use distributed_intranet.Base.{
  ℕ, ◌≤◌, ◌<◌, ◌%◌, ◌≡◌, ◌++◌, refl, sym, ap, ◌∙◌, true, false, some, List, [], ◌∷◌, arith, inl,
  inr,
}
use distributed_intranet.Base.Tests.{leb, Bool-cases, if◌then◌else◌}
use distributed_intranet.Base.Lists.{length, filter, length-append, length-filter}
use distributed_intranet.Base.Order.{nat_ord, ◌=?◌, =?_refl}
use distributed_intranet.Map.{get, insert}
use distributed_intranet.Map.Laws.{get-insert}
use distributed_intranet.Crypto.{Crypto}
use distributed_intranet.Crypto.Enc.{Enc}
use distributed_intranet.Crypto.Time.{Timestamp}
use distributed_intranet.Governance.Capability.{audit_reputation}
use distributed_intranet.Governance.State.{GovernanceState, identity_holds}
use distributed_intranet.Ledger.Reliability.{ReliabilityObservations, for_peer}
use distributed_intranet.Ledger.Audit.{
  AuditRateLimit, AuditRequest, AuditResponse, AuditAnswer, responded, audit_request_verifies,
  history_of, in_window, recent_requests, create_response, respond_within, respond_to_audit,
}

abbrev response_in : AuditAnswer → List AuditResponse
response_in (responded r) = r ∷ []
response_in _ = []

-- The requests of one requester that a node remembers.
abbrev pub audits_of : ℕ → ReliabilityObservations → List Timestamp
audits_of requester self = history_of (get requester self.audit_log)

module _ (sign : Enc → ℕ) (responder : ℕ) where
  -- The answer is the node's own counters, and the audit is counted, within the limit.
  abbrev pub IsCounted :
      ReliabilityObservations
      → AuditRequest
      → Timestamp
      → AuditRateLimit
      → AuditResponse
      → ReliabilityObservations
      → Type 0
  IsCounted self request now policy r after =
      (r ≡ create_response sign responder request (for_peer self request.subject) now)
      × ((audits_of request.requester after
            ≡ recent_requests self policy now request.requester ++ now ∷ [])
          × (length (audits_of request.requester after) ≤ policy.max_requests_per_window))

  module _ (request : AuditRequest) (now : Timestamp) (policy : AuditRateLimit) where
    abbrev counted : ReliabilityObservations → ReliabilityObservations
    counted self = record self {
      audit_log =
          insert request.requester (recent_requests self policy now request.requester ++ now ∷ [])
            self.audit_log;
    }

    abbrev response_to : ReliabilityObservations → AuditResponse
    response_to self = create_response sign responder request (for_peer self request.subject) now

    same_key :
        (self : ReliabilityObservations)
        → (if request.requester =? request.requester
            then some (recent_requests self policy now request.requester ++ now ∷ [])
            else get request.requester self.audit_log)
          ≡ some (recent_requests self policy now request.requester ++ now ∷ [])
    same_key self = rw (=?_refl request.requester) refl

    audits_of-counted :
        (self : ReliabilityObservations)
        → audits_of request.requester (counted self)
          ≡ recent_requests self policy now request.requester ++ now ∷ []
    audits_of-counted self = ap history_of (
        get-insert request.requester request.requester
          (recent_requests self policy now request.requester ++ now ∷ []) self.audit_log
        ∙ same_key self)

    length-counted :
        (self : ReliabilityObservations)
        → length (audits_of request.requester self) < 0x100000000
        → leb policy.max_requests_per_window
            (length (recent_requests self policy now request.requester) % 0x100000000)
          ≡ false
        → length (recent_requests self policy now request.requester ++ now ∷ [])
          ≤ policy.max_requests_per_window
    unfolding recent_requests
    length-counted self few free =
        let old = audits_of request.requester self in
        ground (
          arith,
          length-filter (in_window policy now) old,
          length-append (filter (in_window policy now) old) (now ∷ []),
        )

    answered-IsCounted :
        (self after : ReliabilityObservations) (r : AuditResponse)
        → length (audits_of request.requester self) < 0x100000000
        → leb policy.max_requests_per_window
            (length (recent_requests self policy now request.requester) % 0x100000000)
          ≡ false
        → counted self ≡ after
        → responded (response_to self) ≡ responded r
        → IsCounted self request now policy r after
    answered-IsCounted self after r few free same answer =
        let held = ap (audits_of request.requester) (sym same) ∙ audits_of-counted self in
        (cc, (held, rw held (length-counted self few free)))

    respond_within-IsCounted :
        (self after : ReliabilityObservations) (r : AuditResponse)
        → length (audits_of request.requester self) < 0x100000000
        → respond_within sign responder self request now policy ≡ (after, responded r)
        → IsCounted self request now policy r after
    unfolding respond_within
    respond_within-IsCounted self after r few e =
        let full =
          leb policy.max_requests_per_window
            (length (recent_requests self policy now request.requester) % 0x100000000) in
        elim (Bool-cases full) [
          | inl limited ↦ (let k = ap (λ p. p.1) (rw limited at e) in cc)
          | inr free ↦
              (let k = rw free at e in
                answered-IsCounted self after r few free (ap (λ p. p.0) k) (ap (λ p. p.1) k))
        ]

    -- Where the requests that a node remembers of the requester are fewer than 2 ^ 32, an audit that
    -- it answers was signed by its requester, who held the capability to audit; the answer is the
    -- node's own counters of the subject, and the node then remembers the requester's requests
    -- within the window and this one, at most as many as the limit allows.
    pub respond_to_audit-IsCounted :
        (crypto : Crypto) (state : GovernanceState) (self after : ReliabilityObservations)
        (r : AuditResponse)
        → length (audits_of request.requester self) < 0x100000000
        → respond_to_audit sign responder crypto state request now policy self
          ≡ (after, responded r)
        → ((audit_request_verifies crypto request ≡ true)
            × (identity_holds state request.requester audit_reputation ≡ true))
          × IsCounted self request now policy r after
    unfolding respond_to_audit
    respond_to_audit-IsCounted crypto state self after r few e =
        elim (Bool-cases (audit_request_verifies crypto request)) [
          | inr forged ↦ (let k = ap (λ p. p.1) (rw forged at e) in cc)
          | inl signed ↦
              elim (Bool-cases (identity_holds state request.requester audit_reputation)) [
                | inr outside ↦ (let k = ap (λ p. p.1) (rw (signed, outside) at e) in cc)
                | inl allowed ↦ (
                  (signed, allowed),
                  respond_within-IsCounted self after r few (rw (signed, allowed) at e),
                )
              ]
        ]
