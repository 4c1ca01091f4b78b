-- ===== src/Governance/Group.antt =====
-- crates/intranet-governance/src/group.rs: groups and the provenance of memberships.
use distributed_intranet.Base.{ℕ, Bool, Option, []}
use distributed_intranet.Base.Order.{nat_ord}
use distributed_intranet.Map.{Map, get, contains_key}
use distributed_intranet.Crypto.Enc.{Enc, ◌▸◌, str, seq, fixed, option, i64}
use distributed_intranet.Crypto.Time.{Timestamp}
use distributed_intranet.Governance.Capability.{GroupId, CapabilitySet, encode_capabilities}

-- entry.rs: which invite a membership came from
pub record InviteProvenance : Type 0 where
  pub invite_id : ℕ
  pub issuer : ℕ

pub record MembershipRecord : Type 0 where
  pub added_by : Option ℕ
  pub added_at : Timestamp
  pub via_invite : Option InviteProvenance

pub record Group : Type 0 where
  pub id : GroupId
  pub capabilities : CapabilitySet
  pub members : Map ℕ MembershipRecord

unfoldable pub new : GroupId → CapabilitySet → Group
new id capabilities = record { id = id; capabilities = capabilities; members = [] }

unfoldable pub contains : Group → ℕ → Bool
unfolding get
contains group identity = contains_key identity group.members

unfoldable pub encode_provenance : InviteProvenance → Enc → Enc
unfolding fixed
encode_provenance p e = e ▸ fixed 32 p.invite_id ▸ fixed 32 p.issuer

unfoldable pub encode_group : Group → Enc → Enc
unfolding encode_capabilities encode_provenance str seq fixed option i64
encode_group group e =
    e
    ▸ str group.id
    ▸ encode_capabilities group.capabilities
    ▸ seq group.members (λ (identity, member) b.
      b
      ▸ fixed 32 identity
      ▸ option member.added_by (fixed 32)
      ▸ i64 member.added_at
      ▸ option member.via_invite encode_provenance)
