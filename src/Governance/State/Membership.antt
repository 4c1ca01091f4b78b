-- ===== src/Governance/State/Membership.antt =====
-- Who enters a group by an entry (crates/intranet-governance/src/state.rs).
use distributed_intranet.Base.{
  ℕ, zero, ◌+◌, suc, ◌≡◌, refl, subst, ◌⊎◌, Bool, true, false, not, Option, none, some, List, [],
  ◌∷◌, arith, inl, inr,
}
use distributed_intranet.Base.Tests.{Bool-cases, Option-cases, if◌then◌else◌}
use distributed_intranet.Base.Order.{◌=?◌, eq_of_=?, text_ord, nat_ord}
use distributed_intranet.Base.Lists.{length}
use distributed_intranet.Map.{Map, get, insert, remove, retain, contains_key}
use distributed_intranet.Map.Laws.{get-insert, get-remove}
use distributed_intranet.Crypto.{Crypto}
use distributed_intranet.Crypto.Time.{Timestamp}
use distributed_intranet.Governance.Capability.{GroupId, CapabilitySet}
use distributed_intranet.Governance.Error.{ok, >>=-eq-ok}
use distributed_intranet.Governance.Group.{Group, MembershipRecord, InviteProvenance, new}
use distributed_intranet.Governance.Entry.{Cascade, LogEntry, EntryBody, MembershipAction}
use distributed_intranet.Governance.State.{GovernanceState}
use distributed_intranet.Governance.State.Cascade.{
  is_doomed, cascade_loop, cascade_members, cutoff_of, remove_from_group,
}
use distributed_intranet.Governance.State.Mutate.{
  mutate, change_members, put_group, redefined, or_unknown,
}

abbrev has_member : ℕ → Option Group → Bool
has_member identity none = false
has_member identity (some target) = contains_key identity target.members

-- Whether the identity is in the group.
abbrev pub in_group : GovernanceState → GroupId → ℕ → Bool
in_group self group identity = has_member identity (get group self.groups)

put-in_group :
    (self : GovernanceState) (g group : GroupId) (target : Group) (identity : ℕ)
    → in_group (put_group self g target) group identity
      ≡ (if g =? group then contains_key identity target.members else in_group self group identity)
put-in_group self g group target identity = elim (Bool-cases (g =? group)) [
  | inl same ↦ rw (get-insert g group target self.groups, same) refl
  | inr other ↦ rw (get-insert g group target self.groups, other) refl
]

redefined-in_group :
    (self : GovernanceState) (g : GroupId) (capabilities : CapabilitySet) (identity : ℕ)
    → contains_key identity (redefined g capabilities (get g self.groups)).members
      ≡ in_group self g identity
redefined-in_group self g capabilities identity = elim (Option-cases (get g self.groups)) [
  | inl fresh ↦ rw fresh (unfold new get in refl)
  | inr (target, known) ↦ rw known refl
]

-- A lookup in what a test keeps finds something only if the key was there.
retain_shrinks :
    (test : ℕ → MembershipRecord → Bool) (identity : ℕ) (members : Map ℕ MembershipRecord)
    → contains_key identity (retain test members) ≡ true
    → contains_key identity members ≡ true
unfolding get retain
retain_shrinks test identity [] h = h
retain_shrinks test identity ((j, r) ∷ members) h =
    ground (arith, retain_shrinks test identity members)

cascade_shrinks :
    (fuel : ℕ) (cutoff : Option Timestamp) (pending : List ℕ) (members : Map ℕ MembershipRecord)
    (identity : ℕ)
    → contains_key identity (cascade_loop fuel cutoff pending members) ≡ true
    → contains_key identity members ≡ true
unfolding cascade_loop
cascade_shrinks zero cutoff pending members identity h = h
cascade_shrinks (suc fuel) cutoff [] members identity h = h
cascade_shrinks (suc fuel) cutoff (p ∷ pending) members identity h =
    retain_shrinks (λ _ r. not (is_doomed cutoff p r)) identity members
      (cascade_shrinks fuel cutoff _ _ identity h)

remove_shrinks :
    (cascade : Option Cascade) (at : Timestamp) (gone identity : ℕ)
    (members : Map ℕ MembershipRecord)
    → contains_key identity (cascade_members cascade gone at (remove gone members)) ≡ true
    → contains_key identity members ≡ true
unfolding cascade_members
remove_shrinks none at gone identity members h = ground (arith, get-remove gone identity members)
remove_shrinks (some cascade) at gone identity members h =
    let before =
      cascade_shrinks (length (remove gone members) + 1) (cutoff_of cascade.window_millis at)
        (gone ∷ []) (remove gone members) identity h in
    ground (arith, get-remove gone identity members)

or_unknown-eq-ok :
    (g : GroupId) (o : Option Group) {target : Group} → or_unknown g o ≡ ok target → o ≡ some target
or_unknown-eq-ok g none h = cc
or_unknown-eq-ok g (some t) h = cc

remove_from_group-members :
    (g : GroupId) (gone : ℕ) (cascade : Option Cascade) (at : Timestamp) (target : Group)
    {left : Group}
    → remove_from_group g gone cascade at target ≡ ok left
    → left.members ≡ cascade_members cascade gone at (remove gone target.members)
unfolding remove_from_group
remove_from_group-members g gone cascade at target {left} h =
    elim (Option-cases (get gone target.members)) [
      | inl absent ↦ ground arith
      | inr (r, found) ↦ ground arith
    ]

-- What a body must be to put an identity into a group.
abbrev pub Grants : EntryBody → GroupId → ℕ → Type 0
Grants body group identity =
    (via : Option InviteProvenance) × (body
      ≡ EntryBody.membership_change group identity (MembershipAction.add via))

module _ (crypto : Crypto) (self : GovernanceState) (entry : LogEntry) (group : GroupId)
    (identity : ℕ) where
  defined :
      (g : GroupId) (capabilities : CapabilitySet)
      → in_group (put_group self g (redefined g capabilities (get g self.groups))) group identity
        ≡ true
      → in_group self group identity ≡ true
  defined g capabilities m = elim (Bool-cases (g =? group)) [
    | inl same ↦
        (let e = eq_of_=? g group same in
          let a = redefined-in_group self g capabilities identity in
          let b =
            put-in_group self g group (redefined g capabilities (get g self.groups)) identity in
          ground arith)
    | inr other ↦
        ground
          (arith, put-in_group self g group (redefined g capabilities (get g self.groups)) identity)
  ]

  entered :
      (g : GroupId) (who : ℕ) (member : MembershipRecord) (target : Group)
      → get g self.groups ≡ some target
      → in_group
          (put_group self g (record target { members = insert who member target.members }))
          group
          identity
        ≡ true
      → (in_group self group identity ≡ true) ⊎ ((g ≡ group) × (who ≡ identity))
  entered g who member target known m =
      let target_with : Group = record target { members = insert who member target.members } in
      let inside = get-insert who identity member target.members in
      let b = put-in_group self g group target_with identity in
      elim (Bool-cases (g =? group)) [
        | inl same ↦ elim (Bool-cases (who =? identity)) [
          | inl it ↦ inr (eq_of_=? g group same, eq_of_=? who identity it)
          | inr it ↦ inl (let e = eq_of_=? g group same in ground arith)
        ]
        | inr other ↦ inl (ground arith)
      ]

  remained :
      (g : GroupId) (gone : ℕ) (cascade : Option Cascade) (target left : Group)
      → get g self.groups ≡ some target
      → remove_from_group g gone cascade entry.timestamp target ≡ ok left
      → in_group (put_group self g left) group identity ≡ true
      → in_group self group identity ≡ true
  remained g gone cascade target left known removed m =
      let b = put-in_group self g group left identity in
      let c = remove_from_group-members g gone cascade entry.timestamp target removed in
      let d = remove_shrinks cascade entry.timestamp gone identity target.members in
      elim (Bool-cases (g =? group)) [
        | inl same ↦ (let e = eq_of_=? g group same in ground arith)
        | inr other ↦ ground arith
      ]

  changed :
      (g : GroupId) (who : ℕ) (action : MembershipAction) {t : GovernanceState}
      → change_members crypto self entry g who action ≡ ok t
      → in_group t group identity ≡ true
      → (in_group self group identity ≡ true)
        ⊎ Grants (EntryBody.membership_change g who action) group identity
  unfolding change_members
  changed g who (MembershipAction.add via) {t} h m =
      let (target, known, h1) = >>=-eq-ok (or_unknown g (get g self.groups)) _ h in
      let member : MembershipRecord = record {
        added_by = some entry.author;
        added_at = entry.timestamp;
        via_invite = via;
      } in
      let put : t
          ≡ put_group self g (record target { members = insert who member target.members }) =
        cc in
      elim (entered g who member target (or_unknown-eq-ok g (get g self.groups) known) (
        subst (λ s. in_group s group identity ≡ true) {x = t}
          {y = put_group self g (record target { members = insert who member target.members })} put
          m)) [ inl before ↦ inl before | inr (same, it) ↦ inr (via, cc) ]
  changed g who (MembershipAction.remove cascade) {t} h m =
      let (target, known, h1) = >>=-eq-ok (or_unknown g (get g self.groups)) _ h in
      let (left, removed, h2) =
        >>=-eq-ok (remove_from_group g who cascade entry.timestamp target) _ h1 in
      let put : t ≡ put_group self g left = cc in
      inl (
        remained g who cascade target left (or_unknown-eq-ok g (get g self.groups) known) removed
          (subst (λ s. in_group s group identity ≡ true) {x = t} {y = put_group self g left} put m))

  pub mutate-Grants :
      (body : EntryBody) {t : GovernanceState}
      → mutate crypto self entry body ≡ ok t
      → in_group t group identity ≡ true
      → (in_group self group identity ≡ true) ⊎ Grants body group identity
  unfolding mutate
  mutate-Grants (EntryBody.genesis _ _ _) h m = cc
  mutate-Grants (EntryBody.define_group g capabilities) {t} h m = inl (
      defined g capabilities (
        subst (λ s. in_group s group identity ≡ true) {x = t}
          {y = put_group self g (redefined g capabilities (get g self.groups))} (cc h) m))
  mutate-Grants (EntryBody.membership_change g who action) h m = changed g who action h m
  mutate-Grants _ h m = inl (ground arith)
