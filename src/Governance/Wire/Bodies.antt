-- ===== src/Governance/Wire/Bodies.antt =====
-- Every entry body is read back from what `put_body` appends, which is what is signed.
use distributed_intranet.Base.{ℕ, ◌≤◌, ◌≡◌, refl, ap, Bool, true, some, List, arith}
use distributed_intranet.Base.Tests.{leb}
use distributed_intranet.Base.Lists.{length, All}
use distributed_intranet.Base.Int.{ℤ, IsI64}
use distributed_intranet.Base.Order.{text_ord}
use distributed_intranet.Base.Text.{Text}
use distributed_intranet.Map.Collect.{Ascending, collect_set-ascending}
use distributed_intranet.Crypto.Enc.{Enc, fixed, i64, str}
use distributed_intranet.Crypto.Dec.{unexpected_end}
use distributed_intranet.Crypto.Dec.Numbers.{Fits}
use distributed_intranet.Crypto.Dec.Sends.{Sends, joined, given, passed_check}
use distributed_intranet.Crypto.Dec.Primitives.{
  Reads, IsStr, variant-Sends, u8-Sends, fixed-Sends, str-Sends, bytes-Sends, seq-Sends, i64-Sends,
  option-Sends,
}
use distributed_intranet.Identity.Device.{DeviceCertificate, DeviceCertificateRevocation}
use distributed_intranet.Governance.Group.{InviteProvenance}
use distributed_intranet.Governance.Entry.{
  EntryBody, genesis, define_group, membership_change, policy_change, content_type_policy,
  epoch_rotation, vote_proposed, vote_outcome, device_enrollment, device_revocation, moderation,
  app_name_registration, app_entry, MembershipAction, add, remove, Cascade, encode_cascade,
  encode_action, encode_body, RotationReason, member_revoked, self_initiated, member_admitted,
  reason_tag, ModerationAction, delist, relist, moderation_tag, is_valid_app_entry_name,
}
use distributed_intranet.Governance.Wire.{max_commit_bytes, max_app_entry_payload_bytes}
use distributed_intranet.Governance.Wire.Body.{
  put_action, put_body, get_cascade, reason_of, moderation_of, get_rotation, get_moderation,
  get_app_entry, action_of, get_membership, get_enrollment, get_device_revocation, get_genesis,
  body_of, get_body,
}
use distributed_intranet.Governance.Wire.Values.{
  given_as, IsKey, key-Sends, IsCapability, get_capability-Sends, AreCapabilities,
  capabilities-Sends, IsCapabilitySet, get_capability_set-Sends, IsProvenance,
  get_invite_provenance-Sends,
}
use distributed_intranet.Governance.Wire.PolicyValues.{IsPolicy, get_policy-Sends, str_end}
use distributed_intranet.Governance.Wire.VoteValues.{
  IsProposal, get_proposal-Sends, IsCertificate, get_certificate-Sends,
}

put_action-eq-encode_action :
    (action : MembershipAction) (e : Enc) → put_action action e ≡ encode_action action e
unfolding put_action encode_action
put_action-eq-encode_action (add via_invite) e = refl
put_action-eq-encode_action (remove cascade) e = refl

-- What the wire codec puts for a body is byte for byte what is hashed and signed for it.
pub put_body-eq-encode_body : (body : EntryBody) (e : Enc) → put_body body e ≡ encode_body body e
unfolding put_body encode_body
put_body-eq-encode_body (membership_change group identity action) e =
    put_action-eq-encode_action action _
put_body-eq-encode_body (genesis _ _ _) e = refl
put_body-eq-encode_body _ e = refl

reason-Sends :
    (reason : RotationReason) {e : List ℕ} → Sends e (reason_of (reason_tag reason)) reason e
unfolding reason_of reason_tag
reason-Sends member_revoked = given member_revoked
reason-Sends self_initiated = given self_initiated
reason-Sends member_admitted = given member_admitted

moderation-Sends :
    (action : ModerationAction) {e : List ℕ}
    → Sends e (moderation_of (moderation_tag action)) action e
unfolding moderation_of moderation_tag
moderation-Sends delist = given delist
moderation-Sends relist = given relist

abbrev pub IsCascade : Cascade → Type 0
IsCascade c = (w : ℤ) → c.window_millis ≡ some w → IsI64 w

get_cascade-Sends : Reads IsCascade encode_cascade get_cascade
unfolding encode_cascade get_cascade
get_cascade-Sends c h e =
    joined _ (option-Sends {f = i64} (λ w p m. i64-Sends w p) c.window_millis h) (given c)

module _ (valid_key : ℕ → Bool) where
  abbrev pub IsAction : MembershipAction → Type 0
  IsAction (add via_invite) =
      (p : InviteProvenance) → via_invite ≡ some p → IsProvenance valid_key p
  IsAction (remove cascade) = (c : Cascade) → cascade ≡ some c → IsCascade c

  abbrev pub IsEnrollment : DeviceCertificate → Type 0
  IsEnrollment cert =
      (Fits 32 cert.network × (IsKey valid_key cert.identity × IsKey valid_key cert.device))
      × (IsStr cert.label × (IsI64 cert.issued_at × Fits 64 cert.signature))

  abbrev pub IsRevocation : DeviceCertificateRevocation → Type 0
  IsRevocation r =
      (Fits 32 r.network × (IsKey valid_key r.identity × IsKey valid_key r.device))
      × (IsI64 r.revoked_at × Fits 64 r.signature)

  -- A body that can be sent: its parts are well formed and within the reader's ceilings.
  abbrev pub IsBody : EntryBody → Type 0
  IsBody (genesis network policy capabilities) =
      Fits 32 network × (IsPolicy policy × AreCapabilities capabilities)
  IsBody (define_group group capabilities) = IsStr group × IsCapabilitySet capabilities
  IsBody (membership_change group identity action) =
      IsStr group × (IsKey valid_key identity × IsAction action)
  IsBody (policy_change policy) = IsPolicy policy
  IsBody (content_type_policy allowlist) =
      Ascending allowlist × (Fits 8 (length allowlist) × All IsStr allowlist)
  IsBody (epoch_rotation reason commit) = length commit ≤ max_commit_bytes
  IsBody (vote_proposed proposal) = IsProposal valid_key proposal
  IsBody (vote_outcome certificate) = IsCertificate valid_key certificate
  IsBody (device_enrollment cert) = IsEnrollment cert
  IsBody (device_revocation revocation) = IsRevocation revocation
  IsBody (moderation m) = Fits 32 m.target_pointer_id
  IsBody (app_name_registration name app_id) = IsStr name × Fits 32 app_id
  IsBody (app_entry namespace kind required payload) =
      (IsStr namespace × (IsStr kind × (is_valid_app_entry_name namespace kind ≡ true)))
      × (IsCapability required × (length payload ≤ max_app_entry_payload_bytes))

  membership-Sends :
      (group : Text) (identity : ℕ) (action : MembershipAction) {e : List ℕ}
      → IsStr group
      → IsKey valid_key identity
      → IsAction action
      → Sends e
          (get_membership valid_key)
          (membership_change group identity action)
          (put_action action (fixed 32 identity (str group e)))
  unfolding get_membership action_of put_action
  membership-Sends group identity (add via_invite) g i a = joined _ (str-Sends group g _) (
      joined _ (key-Sends valid_key identity i _) (
        joined _ (variant-Sends 0) (
          joined _
            (joined _ (option-Sends (get_invite_provenance-Sends valid_key) via_invite a)
              (given (add via_invite)))
            (given (membership_change group identity (add via_invite))))))
  membership-Sends group identity (remove cascade) g i a = joined _ (str-Sends group g _) (
      joined _ (key-Sends valid_key identity i _) (
        joined _ (variant-Sends 1) (
          joined _ (joined _ (option-Sends get_cascade-Sends cascade a) (given (remove cascade)))
            (given (membership_change group identity (remove cascade))))))

  pub get_body-Sends : Reads IsBody put_body (get_body valid_key)
  unfolding get_body put_body body_of get_genesis get_rotation get_enrollment get_device_revocation
      get_moderation get_app_entry
  get_body-Sends (genesis network policy capabilities) h e = joined _ (variant-Sends 0) (
      joined _ (fixed-Sends 32 network h.0) (
        joined _ (get_policy-Sends policy h.1.0 _)
          (capabilities-Sends (genesis network policy) capabilities h.1.1)))
  get_body-Sends (define_group group capabilities) h e = joined _ (variant-Sends 1) (
      joined _ (str-Sends group h.0 _) (
        joined _ (get_capability_set-Sends capabilities h.1 _)
          (given (define_group group capabilities))))
  get_body-Sends (membership_change group identity action) h e =
      joined _ (variant-Sends 2) (membership-Sends group identity action h.0 h.1.0 h.1.1)
  get_body-Sends (policy_change policy) h e =
      joined _ (variant-Sends 3)
        (joined _ (get_policy-Sends policy h _) (given (policy_change policy)))
  get_body-Sends (content_type_policy allowlist) h e = joined _ (variant-Sends 4) (
      joined _ (seq-Sends str-Sends (unexpected_end 8 0) allowlist str_end h.1.0 h.1.1)
        (given_as (ap content_type_policy (collect_set-ascending allowlist h.0))))
  get_body-Sends (epoch_rotation reason commit) h e =
      let fine : leb (length commit) max_commit_bytes ≡ true = ground arith in
      joined _ (variant-Sends 5) (
        joined _ (u8-Sends (reason_tag reason)) (
          joined _ (reason-Sends reason) (
            joined _ (bytes-Sends commit (omega arith) _)
              (joined _ (passed_check _ fine) (given (epoch_rotation reason commit))))))
  get_body-Sends (vote_proposed proposal) h e =
      joined _ (variant-Sends 10)
        (joined _ (get_proposal-Sends valid_key proposal h _) (given (vote_proposed proposal)))
  get_body-Sends (vote_outcome certificate) h e = joined _ (variant-Sends 11) (
      joined _ (get_certificate-Sends valid_key certificate h _) (given (vote_outcome certificate)))
  get_body-Sends (device_enrollment cert) h e = joined _ (variant-Sends 6) (
      joined _ (fixed-Sends 32 cert.network h.0.0) (
        joined _ (key-Sends valid_key cert.identity h.0.1.0 _) (
          joined _ (key-Sends valid_key cert.device h.0.1.1 _) (
            joined _ (str-Sends cert.label h.1.0 _) (
              joined _ (i64-Sends cert.issued_at h.1.1.0) (
                joined _ (fixed-Sends 64 cert.signature h.1.1.1)
                  (given (device_enrollment cert))))))))
  get_body-Sends (device_revocation r) h e = joined _ (variant-Sends 7) (
      joined _ (fixed-Sends 32 r.network h.0.0) (
        joined _ (key-Sends valid_key r.identity h.0.1.0 _) (
          joined _ (key-Sends valid_key r.device h.0.1.1 _) (
            joined _ (i64-Sends r.revoked_at h.1.0)
              (joined _ (fixed-Sends 64 r.signature h.1.1) (given (device_revocation r)))))))
  get_body-Sends (moderation m) h e = joined _ (variant-Sends 8) (
      joined _ (u8-Sends (moderation_tag m.action)) (
        joined _ (moderation-Sends m.action)
          (joined _ (fixed-Sends 32 m.target_pointer_id h) (given (moderation m)))))
  get_body-Sends (app_name_registration name app_id) h e = joined _ (variant-Sends 9) (
      joined _ (str-Sends name h.0 _)
        (joined _ (fixed-Sends 32 app_id h.1) (given (app_name_registration name app_id))))
  get_body-Sends (app_entry namespace kind required payload) h e =
      let fine : leb (length payload) max_app_entry_payload_bytes ≡ true =
        (let l = h.1.1 in ground arith) in
      joined _ (variant-Sends 12) (
        joined _ (str-Sends namespace h.0.0 _) (
          joined _ (str-Sends kind h.0.1.0 _) (
            joined _ (passed_check _ h.0.1.1) (
              joined _ (get_capability-Sends required h.1.0 _) (
                joined _ (bytes-Sends payload (let l = h.1.1 in omega arith) _) (
                  joined _ (passed_check _ fine)
                    (given (app_entry namespace kind required payload))))))))
