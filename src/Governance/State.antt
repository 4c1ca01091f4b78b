-- ===== src/Governance/State.antt =====
-- crates/intranet-governance/src/state.rs: the state that replay computes, and its queries.
-- `State.Tier` resolves tiers, `State.Cascade` removes members, `State.Authorize` decides who may
-- append what, `State.Mutate` applies entries and replays; the other children prove.
pub mod Tier
pub mod Cascade
pub mod Authorize
pub mod Mutate
pub mod Ceiling
pub mod SelfRemoval
pub mod Revocation
pub mod Membership
pub mod Addition
pub mod SameTiers
pub mod VoteSteps
pub mod VoteFloor
pub mod Tests
use distributed_intranet.Base.{ℕ, Bool, true, false, not, ◌&&◌, Option, none, some, List, [], ◌∷◌}
use distributed_intranet.Base.Tests.{◌==◌, if◌then◌else◌}
use distributed_intranet.Base.Lists.{any, length}
use distributed_intranet.Base.Text.{Text}
use distributed_intranet.Base.Order.{text_ord, nat_ord}
use distributed_intranet.Map.{Map, get, insert, keys, values}
use distributed_intranet.Crypto.{Crypto}
use distributed_intranet.Crypto.Enc.{Enc, ◌▸◌, domain, fixed, str, seq, option, i64, u64}
use distributed_intranet.Crypto.Time.{Timestamp}
use distributed_intranet.Identity.Device.{DeviceCertificate}
use distributed_intranet.Governance.Capability.{GroupId, ContentType, Capability, grants}
use distributed_intranet.Governance.Policy.{NetworkPolicy, allows_content_type, encode_policy}
use distributed_intranet.Governance.Group.{
  InviteProvenance, MembershipRecord, Group, contains, encode_group,
}
use distributed_intranet.Governance.Vote.{VoteProposal}

pub record AppNameRecord : Type 0 where
  pub app_id : ℕ
  pub owner : ℕ
  pub registered_at : Timestamp

-- A `BTreeSet` is the map of its items to `tt`.
abbrev pub Set : Type 0
Set = Map ℕ (Unit {0})

pub record GovernanceState : Type 0 where
  pub network : ℕ
  pub policy : NetworkPolicy
  pub groups : Map GroupId Group
  pub device_certificates : Map ℕ DeviceCertificate
  pub revoked_devices : Set
  pub delisted : Set
  pub epoch : ℕ
  pub app_names : Map Text AppNameRecord
  pub open_votes : Map ℕ VoteProposal
  pub passed_votes : Set
  pub epoch_rotation_ref : Option ℕ

abbrev pub in_set : ℕ → Set → Bool
in_set x set = elim (get x set) [ none ↦ false | some _ ↦ true ]

unfoldable pub identity_holds : GovernanceState → ℕ → Capability → Bool
unfolding contains grants
identity_holds self identity capability =
    any (λ group. contains group identity && grants group.capabilities capability)
      (values self.groups)

unfoldable pub is_member : GovernanceState → ℕ → Bool
unfolding contains
is_member self identity = any (λ group. contains group identity) (values self.groups)

via : ℕ → Option InviteProvenance → Bool
via invite_id none = false
via invite_id (some provenance) = provenance.invite_id == invite_id

users_in : ℕ → Map ℕ MembershipRecord → Set → Set
unfolding via insert
users_in invite_id [] used_by = used_by
users_in invite_id ((identity, member) ∷ rest) used_by =
    users_in invite_id rest
      (if via invite_id member.via_invite then insert identity tt used_by else used_by)

users_of : ℕ → List Group → Set → Set
unfolding users_in
users_of invite_id [] used_by = used_by
users_of invite_id (group ∷ rest) used_by =
    users_of invite_id rest (users_in invite_id group.members used_by)

unfoldable pub invite_use_count : GovernanceState → ℕ → ℕ
unfolding users_of
invite_use_count self invite_id = length (users_of invite_id (values self.groups) [])

unfoldable pub resolve_app_name : GovernanceState → Text → Option AppNameRecord
unfolding get
resolve_app_name self name = get name self.app_names

unfoldable pub is_delisted : GovernanceState → ℕ → Bool
unfolding get
is_delisted self pointer = in_set pointer self.delisted

certifies : Option DeviceCertificate → ℕ → Bool
certifies none identity = false
certifies (some cert) identity = cert.identity == identity

unfoldable pub device_is_authorized : GovernanceState → ℕ → ℕ → Bool
unfolding certifies get
device_is_authorized self device identity =
    if in_set device self.revoked_devices
    then false
    else certifies (get device self.device_certificates) identity

unfoldable pub state_allows : GovernanceState → ContentType → Bool
unfolding allows_content_type
state_allows self content_type = allows_content_type self.policy content_type

state_encoding : GovernanceState → Enc
unfolding domain fixed seq encode_policy encode_group str i64 u64 option
state_encoding self =
    domain "intranet.governance-state.v1"
    ▸ fixed 32 self.network
    ▸ encode_policy self.policy
    ▸ seq (values self.groups) encode_group
    ▸ seq (keys self.device_certificates) (fixed 32)
    ▸ seq (keys self.revoked_devices) (fixed 32)
    ▸ seq (keys self.delisted) (fixed 32)
    ▸ seq self.app_names
        (λ (name, r) e. e ▸ str name ▸ fixed 32 r.app_id ▸ fixed 32 r.owner ▸ i64 r.registered_at)
    ▸ u64 self.epoch
    ▸ option self.epoch_rotation_ref (fixed 32)

unfoldable pub state_hash : Crypto → GovernanceState → ℕ
unfolding state_encoding
state_hash crypto self = crypto.hash_bytes (state_encoding self)
