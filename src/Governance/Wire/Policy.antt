-- ===== src/Governance/Wire/Policy.antt =====
-- crates/intranet-governance/src/wire.rs: `get_policy`, in the parts that it reads.
use distributed_intranet.Base.{ℕ}
use distributed_intranet.Base.Tests.{ltb, leb, ◌==◌, if◌then◌else◌}
use distributed_intranet.Base.Lists.{length}
use distributed_intranet.Base.Order.{text_ord}
use distributed_intranet.Base.Text.{Text}
use distributed_intranet.Map.Collect.{collect_map, collect_set}
use distributed_intranet.Crypto.Dec.{
  Decoder, implausible_length, ◌>>=◌, ◌>>◌, give, malform, refuse, check, get_variant, get_u8,
  get_u32, get_i64, get_bool, get_str, get_seq,
}
use distributed_intranet.Governance.Capability.{Tier, ordinary, governance}
use distributed_intranet.Governance.Policy.{
  AdmissionMode, auto_admit, explicit_intake, HistoryAccess, current_epoch_forward, full_history,
  GovernanceModel, capability_holders, member_vote, PolicyValue, int, text, flag, NetworkPolicy,
  is_valid_app_policy_key,
}
use distributed_intranet.Governance.Wire.{
  WireError, unknown, unnamespaced_policy_key, max_relay_address_bytes, max_bootstrap_relays,
}

unfoldable pub admission_of : ℕ → Decoder WireError AdmissionMode
unfolding give unknown
admission_of v =
    if v == 0 then give auto_admit else if v == 1 then give explicit_intake else unknown v

unfoldable pub model_of : ℕ → Decoder WireError GovernanceModel
unfolding get_str get_u32 get_i64 give unknown ◌>>=◌
model_of v =
    if v == 0
    then give capability_holders
    else if v == 1
    then (do
      electorate ← get_str
      quorum ← get_u32
      window_millis ← get_i64
      give (member_vote electorate quorum window_millis))
    else unknown v

unfoldable pub access_of : ℕ → Decoder WireError HistoryAccess
unfolding give unknown
access_of v =
    if v == 0 then give current_epoch_forward else if v == 1 then give full_history else unknown v

unfoldable pub tier_of_tag : ℕ → Decoder WireError Tier
unfolding give unknown
tier_of_tag t = if t == 0 then give ordinary else if t == 1 then give governance else unknown t

unfoldable pub get_extension : Decoder WireError (Text × Tier)
unfolding get_str get_u8 tier_of_tag give ◌>>=◌
get_extension = do name ← get_str; t ← get_u8; tier ← tier_of_tag t; give (name, tier)

unfoldable pub value_of : ℕ → Decoder WireError PolicyValue
unfolding get_i64 get_str get_bool give unknown ◌>>=◌
value_of v =
    if v == 0
    then (do i ← get_i64; give (int i))
    else if v == 1
    then (do t ← get_str; give (text t))
    else if v == 2
    then (do b ← get_bool; give (flag b))
    else unknown v

unfoldable pub get_app_value : Decoder WireError (Text × PolicyValue)
unfolding get_str get_variant value_of check refuse give ◌>>=◌
get_app_value = do
  key ← get_str
  check (is_valid_app_policy_key key) (refuse (unnamespaced_policy_key key))
  v ← get_variant
  value ← value_of v
  give (key, value)

unfoldable pub get_relay : Decoder WireError Text
unfolding get_str check malform give ◌>>=◌
get_relay = do
  address ← get_str
  check (leb (length address) max_relay_address_bytes)
      (malform (implausible_length (length address) max_relay_address_bytes))
  give address

-- `u16::try_from(d.u32()?)`
unfoldable pub get_u16 : Decoder WireError ℕ
unfolding get_u32 check malform give ◌>>=◌
get_u16 = do v ← get_u32; check (ltb v 65536) (malform (implausible_length 4294967295 0)); give v

unfoldable pub get_policy : Decoder WireError NetworkPolicy
unfolding get_variant admission_of model_of access_of get_extension get_app_value get_relay get_u16
    get_u32 get_i64 get_u8 get_seq get_str collect_set collect_map check malform give ◌>>=◌
get_policy = do
  a ← get_variant
  admission_mode ← admission_of a
  m ← get_variant
  governance_model ← model_of m
  h ← get_variant
  history_access ← access_of h
  allowlist ← get_seq get_str
  extensions ← get_seq get_extension
  app_policy ← get_seq get_app_value
  bootstrap_relays ← get_seq get_relay
  check (leb (length bootstrap_relays) max_bootstrap_relays)
      (malform (implausible_length (length bootstrap_relays) max_bootstrap_relays))
  k ← get_u32
  t_millis ← get_i64
  replication_factor ← get_u16
  mesh_relay_threshold ← get_u8
  target_chunk_size ← get_u32
  give (record {
    admission_mode = admission_mode;
    governance_model = governance_model;
    history_access = history_access;
    content_type_allowlist = collect_set allowlist;
    extension_capabilities = collect_map extensions;
    finality = record { k = k; t_millis = t_millis };
    replication_factor = replication_factor;
    mesh_relay_threshold = mesh_relay_threshold;
    app_policy = collect_map app_policy;
    bootstrap_relays = bootstrap_relays;
    target_chunk_size = target_chunk_size;
  })
