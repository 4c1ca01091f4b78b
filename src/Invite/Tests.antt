-- ===== src/Invite/Tests.antt =====
-- A waiting room with two occupants.
use mathlib.Core.List.{Perm}
use distributed_intranet.Base.{ℕ, ◌≡◌, refl, some, List, [], ◌∷◌}
use distributed_intranet.Base.Int.{pos}
use distributed_intranet.Base.Order.{nat_ord}
use distributed_intranet.Map.{get, values}
use distributed_intranet.Invite.WaitingRoom.{WaitingRoomEntry, WaitingRoom, occupants}
use distributed_intranet.Invite.Waiting.{
  Arrival, after_arrivals, arrivals_keep, InOrder, occupants-InOrder,
}

abbrev waiting : ℕ → ℕ → WaitingRoomEntry
waiting identity time = record {
  identity = identity;
  provenance = record { invite_id = 1; issuer = 2 };
  arrived_at = pos time;
}

abbrev room : WaitingRoom
room = record { occupants = (3, waiting 3 20) ∷ (4, waiting 4 10) ∷ [] }

abbrev comings : List Arrival
comings =
    record { identity = 3; provenance = record { invite_id = 9; issuer = 9 }; at = pos 90 }
    ∷ record { identity = 5; provenance = record { invite_id = 9; issuer = 9 }; at = pos 91 }
    ∷ []

three_waits : get 3 room.occupants ≡ some (waiting 3 20)
unfolding get
three_waits = refl

arrivals_keep_example : get 3 (after_arrivals comings room).occupants ≡ some (waiting 3 20)
arrivals_keep_example = arrivals_keep comings room 3 (waiting 3 20) three_waits

occupants-InOrder_example : InOrder (occupants room) × Perm (occupants room) (values room.occupants)
occupants-InOrder_example = occupants-InOrder room

oldest_first : occupants room ≡ waiting 4 10 ∷ waiting 3 20 ∷ []
unfolding occupants
oldest_first = refl
