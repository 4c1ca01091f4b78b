-- ===== src/Governance/Wire/PolicyValues.antt =====
-- A policy, read back from what its encoder appends.
use distributed_intranet.Base.{ℕ, ◌≤◌, ◌<◌, ◌≡◌, refl, true, List, [], arith}
use distributed_intranet.Base.Tests.{ltb, leb}
use distributed_intranet.Base.Lists.{length, All}
use distributed_intranet.Base.Int.{IsI64}
use distributed_intranet.Base.Order.{text_ord}
use distributed_intranet.Base.Text.{Text}
use distributed_intranet.Map.{keys}
use distributed_intranet.Map.Collect.{
  Ascending, collect_set, collect_set-ascending, collect_map, collect_map-ascending,
}
use distributed_intranet.Crypto.Enc.{str, u32}
use distributed_intranet.Crypto.Dec.{
  Decoder, malformed, unexpected_end, ◌>>=◌, get_variant, get_str,
}
use distributed_intranet.Crypto.Dec.Numbers.{Fits}
use distributed_intranet.Crypto.Dec.Sends.{Sends, joined, given, passed_check}
use distributed_intranet.Crypto.Dec.Primitives.{
  Reads, IsStr, variant-Sends, u8-Sends, u32-Sends, i64-Sends, bool-Sends, str-Sends, seq-Sends,
}
use distributed_intranet.Governance.Capability.{Tier, ordinary, governance}
use distributed_intranet.Governance.Policy.{
  AdmissionMode, auto_admit, explicit_intake, HistoryAccess, current_epoch_forward, full_history,
  GovernanceModel, capability_holders, member_vote, PolicyValue, int, text, flag, NetworkPolicy,
  is_valid_app_policy_key, encode_admission, encode_model, encode_history, encode_extension,
  encode_app_value, encode_value, encode_policy, encode_tier,
}
use distributed_intranet.Governance.Wire.{WireError, max_relay_address_bytes, max_bootstrap_relays}
use distributed_intranet.Governance.Wire.Policy.{
  admission_of, model_of, access_of, tier_of_tag, get_extension, value_of, get_app_value, get_relay,
  get_u16, get_policy,
}
use distributed_intranet.Governance.Wire.Values.{given_as}

abbrev pub IsModel : GovernanceModel → Type 0
IsModel capability_holders = Unit
IsModel (member_vote electorate quorum window_millis) =
    IsStr electorate × (Fits 4 quorum × IsI64 window_millis)

abbrev pub IsValue : PolicyValue → Type 0
IsValue (int v) = IsI64 v
IsValue (text v) = IsStr v
IsValue (flag v) = Unit

abbrev pub IsAppValue : Text × PolicyValue → Type 0
IsAppValue (key, value) = IsStr key × ((is_valid_app_policy_key key ≡ true) × IsValue value)

abbrev pub IsExtension : Text × Tier → Type 0
IsExtension (name, tier) = IsStr name

abbrev pub IsRelay : Text → Type 0
IsRelay address = IsStr address × (length address ≤ max_relay_address_bytes)

-- A policy that can be sent: its maps are in order, its numbers fit, its texts are UTF-8, its
-- application keys are namespaced and its relays are within the reader's ceilings.
pub record IsPolicy (p : NetworkPolicy) : Type 0 where
  pub model : IsModel p.governance_model
  pub allowlist :
      Ascending p.content_type_allowlist
      × (Fits 8 (length p.content_type_allowlist) × All IsStr p.content_type_allowlist)
  pub extensions :
      Ascending (keys p.extension_capabilities)
      × (Fits 8 (length p.extension_capabilities) × All IsExtension p.extension_capabilities)
  pub values :
      Ascending (keys p.app_policy) × (Fits 8 (length p.app_policy) × All IsAppValue p.app_policy)
  pub relays : (length p.bootstrap_relays ≤ max_bootstrap_relays) × All IsRelay p.bootstrap_relays
  pub k : Fits 4 p.finality.k
  pub t_millis : IsI64 p.finality.t_millis
  pub replication : p.replication_factor < 65536
  pub chunk_size : Fits 4 p.target_chunk_size

module _ {A : Type 0} {e next : List ℕ} {y : A} where
  admission-Sends :
      (k : AdmissionMode → Decoder WireError A) (mode : AdmissionMode)
      → Sends (encode_admission mode e) (k mode) y next
      → Sends e (do v ← get_variant; m ← admission_of v; k m) y next
  unfolding encode_admission admission_of
  admission-Sends k auto_admit h = joined _ (variant-Sends 0) (joined k (given auto_admit) h)
  admission-Sends k explicit_intake h =
      joined _ (variant-Sends 1) (joined k (given explicit_intake) h)

  history-Sends :
      (k : HistoryAccess → Decoder WireError A) (access : HistoryAccess)
      → Sends (encode_history access e) (k access) y next
      → Sends e (do v ← get_variant; m ← access_of v; k m) y next
  unfolding encode_history access_of
  history-Sends k current_epoch_forward h =
      joined _ (variant-Sends 0) (joined k (given current_epoch_forward) h)
  history-Sends k full_history h = joined _ (variant-Sends 1) (joined k (given full_history) h)

  model-Sends :
      (k : GovernanceModel → Decoder WireError A) (model : GovernanceModel)
      → IsModel model
      → Sends (encode_model model e) (k model) y next
      → Sends e (do v ← get_variant; m ← model_of v; k m) y next
  unfolding encode_model model_of
  model-Sends k capability_holders h later =
      joined _ (variant-Sends 0) (joined k (given capability_holders) later)
  model-Sends k (member_vote electorate quorum window_millis) h later = joined _ (variant-Sends 1) (
      joined k
        (joined _ (str-Sends electorate h.0 _) (
          joined _ (u32-Sends quorum h.1.0) (
            joined _ (i64-Sends window_millis h.1.1)
              (given (member_vote electorate quorum window_millis)))))
        later)

tier-Sends : (tier : Tier) {e : List ℕ} → Sends e (tier_of_tag (encode_tier tier)) tier e
unfolding tier_of_tag
tier-Sends ordinary = given ordinary
tier-Sends governance = given governance

get_extension-Sends : Reads IsExtension encode_extension get_extension
unfolding encode_extension get_extension
get_extension-Sends (name, tier) h e =
    joined _ (str-Sends name h e)
      (joined _ (u8-Sends (encode_tier tier)) (joined _ (tier-Sends tier) (given (name, tier))))

value-Sends :
    {A : Type 0} (k : PolicyValue → Decoder WireError A) (v : PolicyValue) {e next : List ℕ} {y : A}
    → IsValue v
    → Sends (encode_value v e) (k v) y next
    → Sends e (do t ← get_variant; w ← value_of t; k w) y next
unfolding encode_value value_of
value-Sends k (int v) h later =
    joined _ (variant-Sends 0) (joined k (joined _ (i64-Sends v h) (given (int v))) later)
value-Sends k (text v) h later =
    joined _ (variant-Sends 1) (joined k (joined _ (str-Sends v h _) (given (text v))) later)
value-Sends k (flag v) h later =
    joined _ (variant-Sends 2) (joined k (joined _ (bool-Sends v) (given (flag v))) later)

app_value-Sends : Reads IsAppValue encode_app_value get_app_value
unfolding encode_app_value get_app_value
app_value-Sends (key, value) h e =
    joined _ (str-Sends key h.0 e)
      (joined _ (passed_check _ h.1.0) (value-Sends _ value h.1.1 (given (key, value))))

get_relay-Sends : Reads IsRelay str get_relay
unfolding get_relay
get_relay-Sends address h e =
    let fine : leb (length address) max_relay_address_bytes ≡ true =
      (let l = h.1 in ground arith) in
    joined _ (str-Sends address h.0 e) (joined _ (passed_check _ fine) (given address))

u16-Sends : (v : ℕ) {e : List ℕ} → v < 65536 → Sends e get_u16 v (u32 v e)
unfolding get_u16
u16-Sends v h =
    let fine : ltb v 65536 ≡ true = ground arith in
    joined _ (u32-Sends v (omega arith)) (joined _ (passed_check _ fine) (given v))

pub str_end : get_str {E = WireError} [] ≡ malformed (unexpected_end 8 0)
unfolding get_str
str_end = refl

extension_end : get_extension [] ≡ malformed (unexpected_end 8 0)
unfolding get_extension
extension_end = refl

app_value_end : get_app_value [] ≡ malformed (unexpected_end 8 0)
unfolding get_app_value
app_value_end = refl

relay_end : get_relay [] ≡ malformed (unexpected_end 8 0)
unfolding get_relay
relay_end = refl

policy_as_sent :
    (p : NetworkPolicy)
    → IsPolicy p
    → record p {
      content_type_allowlist = collect_set p.content_type_allowlist;
      extension_capabilities = collect_map p.extension_capabilities;
      app_policy = collect_map p.app_policy;
    }
      ≡ p
policy_as_sent p h =
    rw
      (
        collect_set-ascending p.content_type_allowlist h.allowlist.0,
        collect_map-ascending p.extension_capabilities h.extensions.0,
        collect_map-ascending p.app_policy h.values.0,
      )
      refl

pub get_policy-Sends : Reads IsPolicy encode_policy get_policy
unfolding encode_policy get_policy
get_policy-Sends p h e =
    let few : leb (length p.bootstrap_relays) max_bootstrap_relays ≡ true =
      (let l = h.relays.0 in ground arith) in
    let end = unexpected_end 8 0 in
    admission-Sends _ p.admission_mode (
      model-Sends _ p.governance_model h.model (
        history-Sends _ p.history_access (
          joined _
            (seq-Sends str-Sends end p.content_type_allowlist str_end h.allowlist.1.0
              h.allowlist.1.1)
            (joined _
              (seq-Sends get_extension-Sends end p.extension_capabilities extension_end
                h.extensions.1.0 h.extensions.1.1)
              (joined _
                (seq-Sends app_value-Sends end p.app_policy app_value_end h.values.1.0 h.values.1.1)
                (joined _
                  (seq-Sends get_relay-Sends end p.bootstrap_relays relay_end
                    (let l = h.relays.0 in omega arith) h.relays.1)
                  (joined _ (passed_check _ few) (
                    joined _ (u32-Sends p.finality.k h.k) (
                      joined _ (i64-Sends p.finality.t_millis h.t_millis) (
                        joined _ (u16-Sends p.replication_factor h.replication) (
                          joined _ (u8-Sends p.mesh_relay_threshold) (
                            joined _ (u32-Sends p.target_chunk_size h.chunk_size)
                              (given_as (policy_as_sent p h))))))))))))))
