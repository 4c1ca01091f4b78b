-- ===== src/Ledger/Tests.antt =====
-- A ledger of two nodes.
use distributed_intranet.Base.{ℕ, ◌<◌, ◌≡◌, arith, refl, true, false, none, some, List, [], ◌∷◌}
use distributed_intranet.Base.Lists.{length, All}
use distributed_intranet.Base.Int.{pos, ◌≤ℤ◌}
use distributed_intranet.Base.Order.{nat_ord}
use distributed_intranet.Map.{get, insert}
use distributed_intranet.Crypto.{Crypto}
use distributed_intranet.Crypto.Enc.{Enc}
use distributed_intranet.Crypto.Time.{millis_since}
use distributed_intranet.Governance.Capability.{everyone, all, audit_reputation}
use distributed_intranet.Governance.Policy.{conservative_default}
use distributed_intranet.Governance.State.{GovernanceState, identity_holds}
use distributed_intranet.Ledger.Advertisement.{
  CapabilityAdvertisement, modest, advertisement_verifies,
}
use distributed_intranet.Ledger.Placement.{storage_offered, select}
use distributed_intranet.Ledger.Order.{swapped, select-Rearranged}
use distributed_intranet.Ledger.Entries.{
  CapabilityLedger, new, insert_advertisement, reconcile, select_replicas,
}
use distributed_intranet.Ledger.Genuine.{
  Operation, insertion, removal, run, IsGenuine, run-IsGenuine, insert_advertisement-newer,
}
use distributed_intranet.Ledger.Reliability
use distributed_intranet.Ledger.Reliability.{ReliabilityObservations, record_failed, for_peer}
use distributed_intranet.Ledger.Audit.{
  AuditRateLimit, AuditRequest, AuditResponse, AuditAnswer, responded, audit_rate_limited,
  create_request, audit_request_verifies, create_response, recent_requests, respond_within,
  respond_to_audit,
}
use distributed_intranet.Ledger.Audited.{audits_of, IsCounted, respond_to_audit-IsCounted}
use distributed_intranet.Ledger.Replicas.{OffersStorage, replicas-OffersStorage}

abbrev tape : Crypto
tape = record { hash_bytes = length; verify = λ _ _ _. true }

abbrev offer : ℕ → CapabilityAdvertisement
offer node = record {
  network = 7;
  node = node;
  storage_offered = 1000;
  bandwidth_cap = record { up_bytes_per_sec = 5; down_bytes_per_sec = 6; active_window = none };
  relay_bootstrap_willing = false;
  relay_media_willing = true;
  compute_class = modest;
  issued_at = pos 10;
  signature = 0;
}

abbrev member_state : GovernanceState
member_state = record {
  network = 7;
  policy = conservative_default;
  groups =
      (
        everyone,
        record {
          id = everyone;
          capabilities = all;
          members = (5, record { added_by = none; added_at = pos 0; via_invite = none }) ∷ [];
        },
      )
      ∷ [];
  device_certificates = [];
  revoked_devices = [];
  delisted = [];
  epoch = 0;
  app_names = [];
  open_votes = [];
  passed_votes = [];
  epoch_rotation_ref = none;
}

select-Rearranged_example :
    select tape (1 ∷ []) storage_offered 1 (offer 5 ∷ offer 6 ∷ [])
    ≡ select tape (1 ∷ []) storage_offered 1 (offer 6 ∷ offer 5 ∷ [])
select-Rearranged_example = select-Rearranged tape (1 ∷ []) storage_offered 1 swapped

abbrev two_insertions : List Operation
two_insertions = insertion member_state (offer 5) ∷ removal 6 ∷ []

run-IsGenuine_example : IsGenuine tape (run tape two_insertions (new 7))
run-IsGenuine_example = run-IsGenuine tape 7 two_insertions

abbrev small_ledger : CapabilityLedger
small_ledger = record { network = 7; entries = (5, offer 5) ∷ (6, offer 6) ∷ [] }

small-IsGenuine : IsGenuine tape small_ledger
unfolding advertisement_verifies
small-IsGenuine = ((refl, (refl, refl)), ((refl, (refl, refl)), tt))

abbrev later_offer : CapabilityAdvertisement
later_offer = record (offer 5) { issued_at = pos 20 }

small_holds : get 5 small_ledger.entries ≡ some (offer 5)
unfolding get
small_holds = refl

insert_advertisement-newer_example :
    (b : CapabilityAdvertisement) × ((get 5
          (insert_advertisement tape member_state later_offer small_ledger).0.entries
        ≡ some b)
      × (pos 10 ≤ℤ b.issued_at))
insert_advertisement-newer_example =
    insert_advertisement-newer tape member_state later_offer (offer 5) small_ledger 5 small_holds

replicas-OffersStorage_example :
    All
      (OffersStorage tape member_state small_ledger (reconcile member_state small_ledger).0.entries)
      (select_replicas tape (reconcile member_state small_ledger).0 (1 ∷ []) 3)
replicas-OffersStorage_example =
    replicas-OffersStorage tape member_state small_ledger small-IsGenuine (1 ∷ []) 3

only_member_chosen :
    select_replicas tape (reconcile member_state small_ledger).0 (1 ∷ []) 3 ≡ 5 ∷ []
unfolding select_replicas reconcile
only_member_chosen = refl

abbrev signer : Enc → ℕ
signer e = 0

abbrev audit_of_6 : AuditRequest
audit_of_6 = create_request signer 5 6 (pos 50)

abbrev one_per_window : AuditRateLimit
one_per_window = record { max_requests_per_window = 1; window_millis = pos 1000 }

-- A node that has seen one failure of node 6, after an audit that is long past.
abbrev observing : ReliabilityObservations
observing = record (record_failed 6 Reliability.new) { audit_log = (5, pos 3 ∷ []) ∷ [] }

abbrev first_audit : ReliabilityObservations × AuditAnswer
first_audit =
    respond_to_audit signer 8 tape member_state audit_of_6 (pos 5000) one_per_window observing

abbrev expected_response : AuditResponse
expected_response = create_response signer 8 audit_of_6 (for_peer observing 6) (pos 5000)

abbrev after_audit : ReliabilityObservations
after_audit = record observing { audit_log = (5, pos 5000 ∷ []) ∷ [] }

first_answered : first_audit ≡ (after_audit, responded expected_response)
unfolding respond_to_audit respond_within recent_requests insert get audit_request_verifies
    identity_holds create_request millis_since
first_answered = refl

few_remembered : length (audits_of 5 observing) < 0x100000000
unfolding get
few_remembered = omega arith

respond_to_audit-IsCounted_example :
    ((audit_request_verifies tape audit_of_6 ≡ true)
      × (identity_holds member_state 5 audit_reputation ≡ true))
    × IsCounted signer 8 observing audit_of_6
        (pos 5000)
        one_per_window
        expected_response
        after_audit
unfolding create_request
respond_to_audit-IsCounted_example =
    respond_to_audit-IsCounted signer 8 audit_of_6 (pos 5000) one_per_window tape member_state
      observing after_audit expected_response few_remembered first_answered

second_refused :
    (respond_to_audit signer 8 tape member_state audit_of_6 (pos 5500) one_per_window after_audit).1
    ≡ audit_rate_limited 5 1
unfolding respond_to_audit respond_within recent_requests insert get audit_request_verifies
    identity_holds create_request millis_since
second_refused = refl
