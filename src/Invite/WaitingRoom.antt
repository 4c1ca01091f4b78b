-- ===== src/Invite/WaitingRoom.antt =====
-- crates/intranet-invite/src/waiting_room.rs: the identities that a node knows to await admission. A
-- method on `&mut self` returns the room after it, with its answer if it has one.
use distributed_intranet.Base.{ℕ, Bool, not, ◌&&◌, ◌||◌, Option, List, [], ◌∷◌}
use distributed_intranet.Base.Tests.{leb, ◌==◌, if◌then◌else◌}
use distributed_intranet.Base.Lists.{length, filter}
use distributed_intranet.Base.Int.{ltb_ℤ, leb_ℤ}
use distributed_intranet.Base.Order.{nat_ord}
use distributed_intranet.Map.{Map, get, insert, remove, retain, values, contains_key}
use distributed_intranet.Crypto.Time.{Timestamp}
use distributed_intranet.Governance.Capability.{manage_membership, everyone}
use distributed_intranet.Governance.Group.{InviteProvenance}
use distributed_intranet.Governance.State.{GovernanceState, is_member, identity_holds}

pub record WaitingRoomEntry : Type 0 where
  pub identity : ℕ
  pub provenance : InviteProvenance
  pub arrived_at : Timestamp

pub record WaitingRoom : Type 0 where
  pub occupants : Map ℕ WaitingRoomEntry

unfoldable pub new : WaitingRoom
new = record { occupants = [] }

-- `entry(identity).or_insert(...)`
unfoldable pub admit_to_waiting : ℕ → InviteProvenance → Timestamp → WaitingRoom → WaitingRoom
admit_to_waiting identity provenance arrived_at self =
    if contains_key identity self.occupants then self else record {
      occupants =
          insert identity
            (record { identity = identity; provenance = provenance; arrived_at = arrived_at })
            self.occupants;
    }

unfoldable pub take_out : ℕ → WaitingRoom → WaitingRoom × Option WaitingRoomEntry
unfolding get remove
take_out identity self =
    (record { occupants = remove identity self.occupants }, get identity self.occupants)

unfoldable pub is_waiting : ℕ → WaitingRoom → Bool
unfolding get
is_waiting identity self = contains_key identity self.occupants

-- `(a.arrived_at, a.identity) <= (b.arrived_at, b.identity)`
unfoldable pub no_later : WaitingRoomEntry → WaitingRoomEntry → Bool
no_later a b =
    ltb_ℤ a.arrived_at b.arrived_at
    || (leb_ℤ a.arrived_at b.arrived_at && leb a.identity b.identity)

-- `sort_by_key`
unfoldable pub seat : WaitingRoomEntry → List WaitingRoomEntry → List WaitingRoomEntry
unfolding no_later
seat e [] = e ∷ []
seat e (f ∷ rest) = let later = seat e rest in if no_later e f then e ∷ f ∷ rest else f ∷ later

unfoldable pub sort_entries : List WaitingRoomEntry → List WaitingRoomEntry
unfolding seat
sort_entries [] = []
sort_entries (e ∷ rest) = seat e (sort_entries rest)

unfoldable pub occupants : WaitingRoom → List WaitingRoomEntry
unfolding sort_entries
occupants self = sort_entries (values self.occupants)

unfoldable pub reconcile : GovernanceState → WaitingRoom → WaitingRoom
unfolding retain is_member
reconcile state self = record {
  occupants = retain (λ identity _. not (is_member state identity)) self.occupants;
}

unfoldable pub visible_to : ℕ → GovernanceState → Bool
unfolding identity_holds
visible_to requester state = identity_holds state requester (manage_membership everyone)

unfoldable pub arrivals_for_invite : ℕ → WaitingRoom → ℕ
arrivals_for_invite invite_id self =
    length (filter (λ e. e.provenance.invite_id == invite_id) (values self.occupants))
