-- ===== src/Governance/Policy.antt =====
-- crates/intranet-governance/src/policy.rs: what a network configures about itself.
use distributed_intranet.Base.{
  ℕ, ◌*◌, Bool, true, false, not, ◌&&◌, Option, none, some, List, [], ◌∷◌,
}
use distributed_intranet.Base.Tests.{leb, ◌==◌, if◌then◌else◌}
use distributed_intranet.Base.Lists.{length, any, is_empty}
use distributed_intranet.Base.Int.{ℤ, pos, leb_ℤ}
use distributed_intranet.Base.Order.{◌=?◌, text_ord}
use distributed_intranet.Base.Text.{Text, bytes_of}
use distributed_intranet.Map.{Map, get}
use distributed_intranet.Crypto.Enc.{Enc, ◌▸◌, variant, str, seq, u8, u32, i64, bool}
use distributed_intranet.Governance.Capability.{GroupId, ContentType, Tier, ordinary, governance}

pub data AdmissionMode : Type 0 where
  auto_admit explicit_intake : AdmissionMode

pub data HistoryAccess : Type 0 where
  current_epoch_forward full_history : HistoryAccess

-- `member_vote electorate quorum window_millis`
pub data GovernanceModel : Type 0 where
  capability_holders : GovernanceModel
  member_vote : GroupId → ℕ → ℤ → GovernanceModel

pub record FinalityParams : Type 0 where
  pub k : ℕ
  pub t_millis : ℤ

abbrev pub default_finality : FinalityParams
default_finality = record { k = 10; t_millis = pos (30 * 60000) }

unfoldable pub is_final : FinalityParams → ℕ → ℤ → Bool
is_final params depth age_millis = leb params.k depth && leb_ℤ params.t_millis age_millis

pub data PolicyValue : Type 0 where
  int : ℤ → PolicyValue
  text : Text → PolicyValue
  flag : Bool → PolicyValue

pub record NetworkPolicy : Type 0 where
  pub admission_mode : AdmissionMode
  pub governance_model : GovernanceModel
  pub history_access : HistoryAccess
  pub content_type_allowlist : List ContentType
  pub extension_capabilities : Map Text Tier
  pub finality : FinalityParams
  pub replication_factor : ℕ
  pub mesh_relay_threshold : ℕ
  pub app_policy : Map Text PolicyValue
  pub bootstrap_relays : List Text
  pub target_chunk_size : ℕ

abbrev pub starter_content_types : List ContentType
starter_content_types =
    bytes_of "app-bundle"
    ∷ bytes_of "audio"
    ∷ bytes_of "image"
    ∷ bytes_of "text"
    ∷ bytes_of "video"
    ∷ []

abbrev pub conservative_default : NetworkPolicy
conservative_default = record {
  admission_mode = explicit_intake;
  governance_model = capability_holders;
  history_access = current_epoch_forward;
  content_type_allowlist = starter_content_types;
  extension_capabilities = [];
  finality = default_finality;
  replication_factor = 3;
  mesh_relay_threshold = 4;
  app_policy = [];
  bootstrap_relays = [];
  target_chunk_size = 32 * 1024;
}

unfoldable pub allows_content_type : NetworkPolicy → ContentType → Bool
allows_content_type policy content_type = any (λ t. t =? content_type) policy.content_type_allowlist

abbrev as_int : Option PolicyValue → ℤ → ℤ
as_int (some (int v)) default = v
as_int (some (text _)) default = default
as_int (some (flag _)) default = default
as_int none default = default

unfoldable pub app_policy_int : NetworkPolicy → Text → ℤ → ℤ
unfolding get
app_policy_int policy key default = as_int (get key policy.app_policy) default

-- `key.split_once(':')`, both sides not empty
abbrev after_colon : Text → Bool
after_colon [] = false
after_colon (c ∷ rest) =
    let later = after_colon rest in if c == b':' then not (is_empty rest) else later

unfoldable pub is_valid_app_policy_key : Text → Bool
is_valid_app_policy_key [] = false
is_valid_app_policy_key (c ∷ rest) = not (c == b':') && after_colon rest

-- `ends_with(NAMESPACE_SEPARATOR)`
abbrev pub ends_with_separator : Text → Bool
ends_with_separator [] = false
ends_with_separator (c ∷ []) = c == b':'
ends_with_separator (_ ∷ c ∷ rest) = ends_with_separator (c ∷ rest)

abbrev pub starts_with : Text → Text → Bool
starts_with name [] = true
starts_with [] (_ ∷ _) = false
starts_with (c ∷ name) (d ∷ prefix) = c == d && starts_with name prefix

-- Whether a registration is a namespace that holds the name.
abbrev pub covers : Text → Text → Bool
covers registered name = ends_with_separator registered && starts_with name registered

-- One step of `filter`, `max_by_key(len)`: of equal lengths `max_by_key` keeps the last.
abbrev pub longest : Text → Map Text Tier → Option (Text × Tier) → Option (Text × Tier)
longest name [] best = best
longest name ((registered, tier) ∷ rest) none =
    longest name rest (if covers registered name then some (registered, tier) else none)
longest name ((registered, tier) ∷ rest) (some (r, t)) = longest name rest (
    if covers registered name && leb (length r) (length registered)
    then some (registered, tier)
    else some (r, t))

abbrev pub tier_part : Option (Text × Tier) → Option Tier
tier_part none = none
tier_part (some (_, tier)) = some tier

unfoldable pub extension_tier : NetworkPolicy → Text → Option Tier
unfolding get
extension_tier policy name = elim (get name policy.extension_capabilities) [
  | some tier ↦ some tier
  | none ↦ tier_part (longest name policy.extension_capabilities none)
]

abbrev pub encode_tier : Tier → ℕ
encode_tier ordinary = 0
encode_tier governance = 1

unfoldable pub encode_value : PolicyValue → Enc → Enc
unfolding variant i64 str bool
encode_value (int v) e = e ▸ variant 0 ▸ i64 v
encode_value (text v) e = e ▸ variant 1 ▸ str v
encode_value (flag v) e = e ▸ variant 2 ▸ bool v

unfoldable pub encode_admission : AdmissionMode → Enc → Enc
unfolding variant
encode_admission auto_admit e = e ▸ variant 0
encode_admission explicit_intake e = e ▸ variant 1

unfoldable pub encode_model : GovernanceModel → Enc → Enc
unfolding variant str u32 i64
encode_model capability_holders e = e ▸ variant 0
encode_model (member_vote electorate quorum window_millis) e =
    e ▸ variant 1 ▸ str electorate ▸ u32 quorum ▸ i64 window_millis

unfoldable pub encode_history : HistoryAccess → Enc → Enc
unfolding variant
encode_history current_epoch_forward e = e ▸ variant 0
encode_history full_history e = e ▸ variant 1

unfoldable pub encode_extension : Text × Tier → Enc → Enc
unfolding str u8
encode_extension (name, tier) e = e ▸ str name ▸ u8 (encode_tier tier)

unfoldable pub encode_app_value : Text × PolicyValue → Enc → Enc
unfolding str encode_value
encode_app_value (key, value) e = e ▸ str key ▸ encode_value value

unfoldable pub encode_policy : NetworkPolicy → Enc → Enc
unfolding encode_admission encode_model encode_history encode_extension encode_app_value seq str u8
    u32 i64
encode_policy policy e =
    e
    ▸ encode_admission policy.admission_mode
    ▸ encode_model policy.governance_model
    ▸ encode_history policy.history_access
    ▸ seq policy.content_type_allowlist str
    ▸ seq policy.extension_capabilities encode_extension
    ▸ seq policy.app_policy encode_app_value
    ▸ seq policy.bootstrap_relays str
    ▸ u32 policy.finality.k
    ▸ i64 policy.finality.t_millis
    ▸ u32 policy.replication_factor
    ▸ u8 policy.mesh_relay_threshold
    ▸ u32 policy.target_chunk_size
