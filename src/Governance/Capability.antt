-- ===== src/Governance/Capability.antt =====
-- crates/intranet-governance/src/capability.rs and the group names of group.rs.
use Prim.Native.Nat.{compare, Ordering}
use distributed_intranet.Base.{
  ℕ, ◌≡◌, refl, sym, ◌∙◌, Bool, true, false, Option, none, some, List, [], arith,
}
use distributed_intranet.Base.Tests.{◌==◌, if◌then◌else◌}
use distributed_intranet.Base.Lists.{any}
use distributed_intranet.Base.Order.{
  Ord, ◌=?◌, =?_refl, eq_of_=?, text_ord, nat_refl, lex, lex_refl, lex_eq,
}
use distributed_intranet.Base.Text.{Text, bytes_of}
use distributed_intranet.Crypto.Enc.{Enc, ◌▸◌, variant, str, seq}

-- group.rs: a group's name
abbrev pub GroupId : Type 0
GroupId = Text

abbrev pub founders : GroupId
founders = bytes_of "Founders"

abbrev pub everyone : GroupId
everyone = bytes_of "everyone"

-- policy.rs: a content type's tag
abbrev pub ContentType : Type 0
ContentType = Text

pub data Tier : Type 0 where
  ordinary governance : Tier

pub data Capability : Type 0 where
  approve_node revoke_node define_group define_policy define_content_policy : Capability
  moderate_content audit_reputation read_content : Capability
  manage_membership : GroupId → Capability
  publish : ContentType → Capability
  extension : Text → Capability

abbrev pub register_app_name : Text
register_app_name = bytes_of "register-app-name"

abbrev pub reclaim_app_name : Text
reclaim_app_name = bytes_of "reclaim-app-name"

unfoldable pub intrinsic_tier : Capability → Option Tier
intrinsic_tier approve_node = some governance
intrinsic_tier revoke_node = some governance
intrinsic_tier define_group = some governance
intrinsic_tier define_policy = some governance
intrinsic_tier define_content_policy = some governance
intrinsic_tier moderate_content = some governance
intrinsic_tier audit_reputation = some governance
intrinsic_tier read_content = some ordinary
intrinsic_tier (publish _) = some ordinary
intrinsic_tier (manage_membership _) = none
intrinsic_tier (extension _) = none

-- `derive(PartialEq)`
unfoldable pub same : Capability → Capability → Bool
same approve_node approve_node = true
same revoke_node revoke_node = true
same define_group define_group = true
same define_policy define_policy = true
same define_content_policy define_content_policy = true
same moderate_content moderate_content = true
same audit_reputation audit_reputation = true
same read_content read_content = true
same (manage_membership a) (manage_membership b) = a =? b
same (publish a) (publish b) = a =? b
same (extension a) (extension b) = a =? b
same _ _ = false

-- `BTreeSet<Capability>` is the list of its items in their order.
pub data CapabilitySet : Type 0 where
  all : CapabilitySet
  explicit : List Capability → CapabilitySet

unfoldable pub grants : CapabilitySet → Capability → Bool
unfolding same
grants all capability = true
grants (explicit set) capability = any (same capability) set

unfoldable pub encode_capability : Capability → Enc → Enc
unfolding variant str
encode_capability approve_node e = e ▸ variant 0
encode_capability revoke_node e = e ▸ variant 1
encode_capability define_group e = e ▸ variant 2
encode_capability define_policy e = e ▸ variant 3
encode_capability define_content_policy e = e ▸ variant 4
encode_capability moderate_content e = e ▸ variant 5
encode_capability audit_reputation e = e ▸ variant 6
encode_capability read_content e = e ▸ variant 7
encode_capability (manage_membership group) e = e ▸ variant 8 ▸ str group
encode_capability (publish content_type) e = e ▸ variant 9 ▸ str content_type
encode_capability (extension name) e = e ▸ variant 10 ▸ str name

unfoldable pub encode_capabilities : CapabilitySet → Enc → Enc
unfolding encode_capability seq
encode_capabilities all e = e ▸ variant 0
encode_capabilities (explicit set) e = e ▸ variant 1 ▸ seq set encode_capability

pub same_refl : (c : Capability) → same c c ≡ true
unfolding same
same_refl (manage_membership a) = =?_refl a
same_refl (publish a) = =?_refl a
same_refl (extension a) = =?_refl a
same_refl approve_node = refl
same_refl _ = refl

pub eq_of_same : (c d : Capability) → same c d ≡ true → c ≡ d
unfolding same
eq_of_same (manage_membership a) (manage_membership b) h = ground (arith, eq_of_=? a b h)
eq_of_same (publish a) (publish b) h = ground (arith, eq_of_=? a b h)
eq_of_same (extension a) (extension b) h = ground (arith, eq_of_=? a b h)
eq_of_same approve_node approve_node h = refl
eq_of_same revoke_node revoke_node h = refl
eq_of_same define_group define_group h = refl
eq_of_same define_policy define_policy h = refl
eq_of_same define_content_policy define_content_policy h = refl
eq_of_same moderate_content moderate_content h = refl
eq_of_same audit_reputation audit_reputation h = refl
eq_of_same read_content read_content h = refl
eq_of_same _ _ h = cc

-- `derive(PartialOrd, Ord)`: by the place_of of the constructor, then by its text.
abbrev place_of : Capability → ℕ
place_of approve_node = 0
place_of revoke_node = 1
place_of define_group = 2
place_of define_policy = 3
place_of define_content_policy = 4
place_of moderate_content = 5
place_of audit_reputation = 6
place_of read_content = 7
place_of (manage_membership _) = 8
place_of (publish _) = 9
place_of (extension _) = 10

abbrev held : Capability → Text
held (manage_membership group) = group
held (publish content_type) = content_type
held (extension name) = name
held _ = []

abbrev compare_capabilities : Capability → Capability → Ordering
compare_capabilities a b = elim (compare (place_of a) (place_of b)) [
  | Ordering.lt ↦ Ordering.lt
  | Ordering.gt ↦ Ordering.gt
  | Ordering.eq ↦ lex (held a) (held b)
]

abbrev from_parts : ℕ → Text → Capability
from_parts n t =
    if n == 0
    then approve_node
    else if n == 1
    then revoke_node
    else if n == 2
    then define_group
    else if n == 3
    then define_policy
    else if n == 4
    then define_content_policy
    else if n == 5
    then moderate_content
    else if n == 6
    then audit_reputation
    else if n == 7
    then read_content
    else if n == 8
    then manage_membership t
    else if n == 9
    then publish t
    else extension t

from_parts-place_of : (c : Capability) → from_parts (place_of c) (held c) ≡ c
from_parts-place_of (manage_membership _) = refl
from_parts-place_of (publish _) = refl
from_parts-place_of (extension _) = refl
from_parts-place_of approve_node = refl
from_parts-place_of _ = refl

pub compare_capabilities_refl : (a : Capability) → compare_capabilities a a ≡ Ordering.eq
compare_capabilities_refl a = rw (compare_capabilities, nat_refl (place_of a)) (lex_refl (held a))

pub compare_capabilities_eq : (a b : Capability) → compare_capabilities a b ≡ Ordering.eq → a ≡ b
compare_capabilities_eq a b h =
    let p : place_of a ≡ place_of b = ground arith in
    let t : held a ≡ held b = lex_eq (held a) (held b) (ground arith) in
    sym (from_parts-place_of a) ∙ (rw (p, t) (from_parts-place_of b))

instance abbrev pub capability_ord : Ord Capability
capability_ord = record {
  cmp = compare_capabilities;
  cmp_refl = compare_capabilities_refl;
  eq_of_cmp = compare_capabilities_eq;
}
