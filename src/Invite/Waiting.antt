-- ===== src/Invite/Waiting.antt =====
-- Who waits keeps their place, is shown in order of arrival, and waits no more once a member.
use distributed_intranet.Base.{
  ℕ, ◌≤◌, ◌≡◌, sym, subst, ◌∙◌, true, false, not, some, List, [], ◌∷◌, arith, inl, inr,
}
use mathlib.Core.List.{Perm}
use mathlib.Core.List.Perm
use distributed_intranet.Base.Int.{◌≤ℤ◌}
use distributed_intranet.Base.Tests.{Bool-cases}
use distributed_intranet.Base.Lists.{All}
use distributed_intranet.Base.Order.{◌=?◌, nat_ord, eq_of_=?}
use distributed_intranet.Map.{get, contains_key, values}
use distributed_intranet.Map.Laws.{get-insert}
use distributed_intranet.Map.Every.{Every, Every-retained}
use distributed_intranet.Crypto.Time.{Timestamp}
use distributed_intranet.Governance.Group.{InviteProvenance}
use distributed_intranet.Governance.State.{GovernanceState, is_member}
use distributed_intranet.Invite.WaitingRoom.{
  WaitingRoomEntry, WaitingRoom, admit_to_waiting, no_later, seat, sort_entries, occupants,
  reconcile,
}

-- Someone who comes through an invite, at a time.
pub record Arrival : Type 0 where
  pub identity : ℕ
  pub provenance : InviteProvenance
  pub at : Timestamp

unfoldable pub after_arrivals : List Arrival → WaitingRoom → WaitingRoom
unfolding admit_to_waiting
after_arrivals [] self = self
after_arrivals (a ∷ rest) self =
    after_arrivals rest (admit_to_waiting a.identity a.provenance a.at self)

arrival_keeps :
    (a : Arrival) (self : WaitingRoom) (identity : ℕ) (e : WaitingRoomEntry)
    → get identity self.occupants ≡ some e
    → get identity (admit_to_waiting a.identity a.provenance a.at self).occupants ≡ some e
unfolding admit_to_waiting
arrival_keeps a self identity e h = elim (Bool-cases (contains_key a.identity self.occupants)) [
  | inl known ↦ rw known h
  | inr fresh ↦ rw fresh (
      let g =
        get-insert a.identity identity
          (record { identity = a.identity; provenance = a.provenance; arrived_at = a.at })
          self.occupants in
      elim (Bool-cases (a.identity =? identity)) [
        | inl same ↦
            (let s = eq_of_=? a.identity identity same in
              let held : get a.identity self.occupants ≡ some e =
                subst (λ i. get i self.occupants ≡ some e) (sym s) h in
              absurd (ground arith))
        | inr other ↦ g ∙ rw other h
      ])
]

-- Whoever waits still does after any number of arrivals, their own return among them, with the
-- provenance and the time of their first arrival.
pub arrivals_keep :
    (arrivals : List Arrival) (self : WaitingRoom) (identity : ℕ) (e : WaitingRoomEntry)
    → get identity self.occupants ≡ some e
    → get identity (after_arrivals arrivals self).occupants ≡ some e
unfolding after_arrivals
arrivals_keep [] self identity e h = h
arrivals_keep (a ∷ rest) self identity e h =
    arrivals_keep rest (admit_to_waiting a.identity a.provenance a.at self) identity e
      (arrival_keeps a self identity e h)

-- An earlier arrival, or one of the same time with an identity no greater.
abbrev pub Precedes : WaitingRoomEntry → WaitingRoomEntry → Type 0
Precedes a b =
    (a.arrived_at ≤ℤ b.arrived_at) × (a.arrived_at ≡ b.arrived_at → a.identity ≤ b.identity)

-- Every entry precedes all after it.
abbrev pub InOrder : List WaitingRoomEntry → Type 0
InOrder [] = Unit
InOrder (e ∷ rest) = All (Precedes e) rest × InOrder rest

same_time : (a b : Timestamp) → a ≤ℤ b → b ≤ℤ a → a ≡ b
same_time a b h k = ground arith

Precedes-trans : (a b c : WaitingRoomEntry) → Precedes a b → Precedes b c → Precedes a c
Precedes-trans a b c h k = (
  omega arith,
  λ same.
      let before = h.0 in
      let after = k.0 in
      let first = same_time a.arrived_at b.arrived_at before (ground arith) in
      let second = same_time b.arrived_at c.arrived_at after (ground arith) in
      let low = h.1 first in let high = k.1 second in omega arith,
)

no_later-Precedes : (a b : WaitingRoomEntry) → no_later a b ≡ true → Precedes a b
unfolding no_later
no_later-Precedes a b h = (ground arith, λ same. ground arith)

later-Precedes : (a b : WaitingRoomEntry) → no_later a b ≡ false → Precedes b a
unfolding no_later
later-Precedes a b h = (ground arith, λ same. ground arith)

All-Precedes :
    (a b : WaitingRoomEntry) (l : List WaitingRoomEntry)
    → Precedes a b
    → All (Precedes b) l
    → All (Precedes a) l
All-Precedes a b [] h k = tt
All-Precedes a b (c ∷ l) h k = (Precedes-trans a b c h k.0, All-Precedes a b l h k.1)

seat-All :
    (P : WaitingRoomEntry → Type 0) (e : WaitingRoomEntry) (l : List WaitingRoomEntry)
    → P e
    → All P l
    → All P (seat e l)
unfolding seat
seat-All P e [] p h = (p, tt)
seat-All P e (f ∷ l) p h = elim (Bool-cases (no_later e f)) [
  | inl first ↦ rw first (p, h)
  | inr later ↦ rw later (h.0, seat-All P e l p h.1)
]

seat-InOrder : (e : WaitingRoomEntry) (l : List WaitingRoomEntry) → InOrder l → InOrder (seat e l)
unfolding seat
seat-InOrder e [] h = (tt, tt)
seat-InOrder e (f ∷ l) h = elim (Bool-cases (no_later e f)) [
  | inl first ↦ (let p = no_later-Precedes e f first in rw first ((p, All-Precedes e f l p h.0), h))
  | inr later ↦
      rw later (seat-All (Precedes f) e l (later-Precedes e f later) h.0, seat-InOrder e l h.1)
]

sort_entries-InOrder : (l : List WaitingRoomEntry) → InOrder (sort_entries l)
unfolding sort_entries
sort_entries-InOrder [] = tt
sort_entries-InOrder (e ∷ l) = seat-InOrder e (sort_entries l) (sort_entries-InOrder l)

seat-perm : (e : WaitingRoomEntry) (l : List WaitingRoomEntry) → Perm (seat e l) (e ∷ l)
unfolding seat
seat-perm e [] = Perm.refl (e ∷ [])
seat-perm e (f ∷ l) = elim (Bool-cases (no_later e f)) [
  | inl first ↦ rw first (Perm.refl (e ∷ f ∷ l))
  | inr later ↦ rw later (Perm.trans (Perm.cons f (seat-perm e l)) (Perm.swap e f l))
]

sort_entries-perm : (l : List WaitingRoomEntry) → Perm (sort_entries l) l
unfolding sort_entries
sort_entries-perm [] = Perm.refl []
sort_entries-perm (e ∷ l) =
    Perm.trans (seat-perm e (sort_entries l)) (Perm.cons e (sort_entries-perm l))

-- The occupants listed are the entries of the room, each as often as it is there, from the oldest
-- arrival to the newest, those of one time by identity.
pub occupants-InOrder :
    (self : WaitingRoom) → InOrder (occupants self) × Perm (occupants self) (values self.occupants)
unfolding occupants
occupants-InOrder self =
    (sort_entries-InOrder (values self.occupants), sort_entries-perm (values self.occupants))

-- After a reconciliation with a governance state nobody waits who is a member in it.
pub reconcile_no_members :
    (state : GovernanceState) (self : WaitingRoom)
    → Every (λ identity _. not (is_member state identity) ≡ true) (reconcile state self).occupants
unfolding reconcile
reconcile_no_members state self =
    Every-retained (λ identity _. not (is_member state identity)) self.occupants
