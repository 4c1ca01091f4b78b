-- ===== src/Governance/Wire/Values.antt =====
-- Keys, capabilities and provenances, read back from what their encoders append.
use distributed_intranet.Base.{ℕ, ◌≡◌, refl, ap, subst, sym, Bool, true, List, []}
use distributed_intranet.Base.Lists.{length, All}
use distributed_intranet.Base.Order.{nat_ord}
use distributed_intranet.Map.Collect.{Ascending, collect_set, collect_set-ascending}
use distributed_intranet.Crypto.Enc.{fixed, seq}
use distributed_intranet.Crypto.Dec.{malformed, unexpected_end, ◌>>=◌, give, get_seq}
use distributed_intranet.Crypto.Dec.Numbers.{Fits}
use distributed_intranet.Crypto.Dec.Sends.{Sends, joined, given, passed_check}
use distributed_intranet.Crypto.Dec.Primitives.{
  Reads, IsStr, variant-Sends, fixed-Sends, str-Sends, seq-Sends,
}
use distributed_intranet.Governance.Capability.{
  Capability, approve_node, revoke_node, define_group, define_policy, define_content_policy,
  moderate_content, audit_reputation, read_content, manage_membership, publish, extension,
  CapabilitySet, all, explicit, capability_ord, encode_capability, encode_capabilities,
}
use distributed_intranet.Governance.Group.{InviteProvenance, encode_provenance}
use distributed_intranet.Governance.Wire.{
  get_key, get_invite_provenance, get_capability, capability_of, get_capability_set,
  capability_set_of,
}

abbrev pub IsCapability : Capability → Type 0
IsCapability (manage_membership group) = IsStr group
IsCapability (publish content_type) = IsStr content_type
IsCapability (extension name) = IsStr name
IsCapability _ = Unit

-- A `BTreeSet<Capability>` that `seq` can be asked to encode.
abbrev pub AreCapabilities : List Capability → Type 0
AreCapabilities set = Ascending set × (Fits 8 (length set) × All IsCapability set)

abbrev pub IsCapabilitySet : CapabilitySet → Type 0
IsCapabilitySet all = Unit
IsCapabilitySet (explicit set) = AreCapabilities set

-- The end of a chain that gives a value which is the one meant.
pub given_as : {E A : Type 0} {x y : A} {e : List ℕ} → y ≡ x → Sends {E = E} e (give y) x e
given_as {E} {x} {e = e} h = subst (λ z. Sends {E = E} e (give z) x e) (sym h) (given x)

pub get_capability-Sends : Reads IsCapability encode_capability get_capability
unfolding get_capability encode_capability capability_of
get_capability-Sends approve_node h e = joined _ (variant-Sends 0) (given approve_node)
get_capability-Sends revoke_node h e = joined _ (variant-Sends 1) (given revoke_node)
get_capability-Sends define_group h e = joined _ (variant-Sends 2) (given define_group)
get_capability-Sends define_policy h e = joined _ (variant-Sends 3) (given define_policy)
get_capability-Sends define_content_policy h e =
    joined _ (variant-Sends 4) (given define_content_policy)
get_capability-Sends moderate_content h e = joined _ (variant-Sends 5) (given moderate_content)
get_capability-Sends audit_reputation h e = joined _ (variant-Sends 6) (given audit_reputation)
get_capability-Sends read_content h e = joined _ (variant-Sends 7) (given read_content)
get_capability-Sends (manage_membership group) h e =
    joined _ (variant-Sends 8) (joined _ (str-Sends group h _) (given (manage_membership group)))
get_capability-Sends (publish content_type) h e =
    joined _ (variant-Sends 9)
      (joined _ (str-Sends content_type h _) (given (publish content_type)))
get_capability-Sends (extension name) h e =
    joined _ (variant-Sends 10) (joined _ (str-Sends name h _) (given (extension name)))

get_capability_end : get_capability [] ≡ malformed (unexpected_end 1 0)
unfolding get_capability
get_capability_end = refl

-- A set is collected as it was sent.
pub capabilities-Sends :
    {A : Type 0} (f : List Capability → A) (set : List Capability) {e : List ℕ}
    → AreCapabilities set
    → Sends e
        (do s ← get_seq get_capability; give (f (collect_set s)))
        (f set)
        (seq set encode_capability e)
capabilities-Sends f set h =
    joined _
      (seq-Sends get_capability-Sends (unexpected_end 1 0) set get_capability_end h.1.0 h.1.1)
      (given_as (ap f (collect_set-ascending set h.0)))

pub get_capability_set-Sends : Reads IsCapabilitySet encode_capabilities get_capability_set
unfolding get_capability_set encode_capabilities capability_set_of
get_capability_set-Sends all h e = joined _ (variant-Sends 0) (given all)
get_capability_set-Sends (explicit set) h e =
    joined _ (variant-Sends 1) (capabilities-Sends explicit set h)

module _ (valid_key : ℕ → Bool) where
  abbrev pub IsKey : ℕ → Type 0
  IsKey key = Fits 32 key × (valid_key key ≡ true)

  pub key-Sends : Reads IsKey (fixed 32) (get_key valid_key)
  unfolding get_key
  key-Sends key h e = joined _ (fixed-Sends 32 key h.0) (joined _ (passed_check _ h.1) (given key))

  abbrev pub IsProvenance : InviteProvenance → Type 0
  IsProvenance p = Fits 32 p.invite_id × IsKey p.issuer

  pub get_invite_provenance-Sends :
      Reads IsProvenance encode_provenance (get_invite_provenance valid_key)
  unfolding get_invite_provenance encode_provenance
  get_invite_provenance-Sends p h e =
      joined _ (fixed-Sends 32 p.invite_id h.0) (joined _ (key-Sends p.issuer h.1 _) (given p))
