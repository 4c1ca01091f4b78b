-- ===== src/Transport/Relay/Run.antt =====
-- Runs of a bootstrap relay's operations, and the ceilings that hold after every one.
use distributed_intranet.Base.{
  ℕ, suc, ◌+◌, ◌%◌, ◌≤◌, ◌<◌, ◌≡◌, refl, sym, ap, subst, true, false, not, Option, none, some, List,
  [], ◌∷◌, arith, inl, inr,
}
use distributed_intranet.Base.Tests.{leb, ==_iff, Bool-cases}
use distributed_intranet.Base.Lists.{length}
use distributed_intranet.Base.Order.{nat_ord}
use distributed_intranet.Map.{insert, contains_key}
use distributed_intranet.Map.Laws.{get-insert, length-insert}
use distributed_intranet.Map.Counts.{every-map, every-insert, passing-insert}
use distributed_intranet.Crypto.Time.{Timestamp}
use distributed_intranet.Transport.Relay.{
  Requester, identity_of, invite_of, RelayLimits, Reservation, Circuit, RelayGuard, new, as_u32,
  held_by, through, is_invite, count, invite_full, past_id, try_reserve, release, open_circuit,
  record_on, record_bytes, expire, close_circuit,
}
use distributed_intranet.Transport.Relay.Within.{
  IsU32, IsWithin, circuits-IsWithin, expire-IsWithin, close_circuit-IsWithin, release-IsWithin,
  record_bytes-IsWithin,
}

open_circuit-IsWithin :
    (reservation : ℕ) (now : Timestamp) (self : RelayGuard)
    → IsU32 self.limits
    → IsWithin self
    → IsWithin (open_circuit reservation now self).1
unfolding open_circuit
open_circuit-IsWithin reservation now self small within =
    elim (Bool-cases (not (contains_key reservation self.reservations))) [
      | inl dead ↦ rw dead within
      | inr live ↦
          elim (Bool-cases (leb self.limits.max_circuits (as_u32 (length self.circuits)))) [
            | inl full ↦ rw (live, full) within
            | inr room ↦
                (let b = within.circuits_bound in
                  let c : Circuit = record {
                    reservation = reservation;
                    opened_at = now;
                    bytes = 0;
                  } in
                  rw (live, room)
                    (circuits-IsWithin self ((self.next_id + 1) % 0x10000000000000000)
                      (insert self.next_id c self.circuits)
                      (ground (arith, length-insert self.next_id c self.circuits))
                      (every-insert _ self.next_id c self.circuits (ground arith) within.backed)
                      (every-insert _ self.next_id c self.circuits (ground arith)
                        within.bytes_bound)
                      within))
          ]
    ]

-- A count below a ceiling, as a u32, leaves room for one more.
roomy :
    (n more limit : ℕ)
    → n ≤ limit
    → limit < 0x100000000
    → leb limit (as_u32 n) ≡ false
    → more ≤ suc n
    → more ≤ limit
roomy n more limit h small below k = ground arith

is_invite_lem : (invite : ℕ) (o : Option ℕ) → is_invite invite o ≡ true → o ≡ some invite
is_invite_lem invite none h = cc
is_invite_lem invite (some other) h = ap some ((==_iff other invite).0 h)

-- A reservation that passes the three checks.
reserved-IsWithin :
    (r : Reservation) (next_id : ℕ) (self : RelayGuard)
    → IsU32 self.limits
    → leb self.limits.max_reservations (as_u32 (length self.reservations)) ≡ false
    → leb self.limits.max_reservations_per_identity
        (as_u32 (count (held_by (identity_of r.requester)) self.reservations))
      ≡ false
    → invite_full self (invite_of r.requester) ≡ false
    → IsWithin self
    → IsWithin
        (record self { next_id = next_id; reservations = insert self.next_id r self.reservations })
reserved-IsWithin r next_id self small room few invited within =
    let b = within.reservations_bound in
    record {
      reservations_bound = ground (arith, length-insert self.next_id r self.reservations);
      identity_bound = λ identity.
          let i = within.identity_bound identity in
          let p = passing-insert (held_by identity) self.next_id r self.reservations in
          elim (Bool-cases (held_by identity r)) [
            | inl mine ↦
                roomy (count (held_by identity) self.reservations) _ _ i small.1
                  (subst
                    (λ x.
                      leb self.limits.max_reservations_per_identity
                        (as_u32 (count (held_by x) self.reservations))
                      ≡ false)
                    ((==_iff (identity_of r.requester) identity).0 mine) few)
                  (rw mine at p)
            | inr other ↦ omega (arith, (rw other at p))
          ];
      invite_bound = λ invite.
          let i = within.invite_bound invite in
          let p = passing-insert (through invite) self.next_id r self.reservations in
          elim (Bool-cases (through invite r)) [
            | inl mine ↦
                roomy (count (through invite) self.reservations) _ _ i small.2
                  (subst (λ o. invite_full self o ≡ false)
                    (is_invite_lem invite (invite_of r.requester) mine) invited)
                  (rw mine at p)
            | inr other ↦ omega (arith, (rw other at p))
          ];
      circuits_bound = within.circuits_bound;
      backed =
          every-map _ _ self.circuits
            (λ c live. ground (arith, get-insert self.next_id c.reservation r self.reservations))
            within.backed;
      bytes_bound = within.bytes_bound;
    }

try_reserve-IsWithin :
    (requester : Requester) (handle : ℕ) (now : Timestamp) (self : RelayGuard)
    → IsU32 self.limits
    → IsWithin self
    → IsWithin (try_reserve requester handle now self).1
unfolding try_reserve
try_reserve-IsWithin requester handle now self small within =
    let taken = as_u32 (count (held_by (identity_of requester)) self.reservations) in
    elim (Bool-cases (leb self.limits.max_reservations (as_u32 (length self.reservations)))) [
      | inl full ↦ rw full within
      | inr room ↦ elim (Bool-cases (leb self.limits.max_reservations_per_identity taken)) [
        | inl many ↦ rw (room, many) within
        | inr few ↦ elim (Bool-cases (invite_full self (invite_of requester))) [
          | inl spent ↦ rw (room, few, spent) within
          | inr invited ↦
              rw (room, few, invited)
                (reserved-IsWithin
                  (record { requester = requester; handle = handle; granted_at = now })
                  (past_id self).next_id self small room few invited within)
        ]
      ]
    ]

-- What a relay is asked to do.
pub data Event : Type 0 where
  reserve : (requester : Requester) (handle : ℕ) (now : Timestamp) → Event
  give_up : (reservation : ℕ) → Event
  connect : (reservation : ℕ) (now : Timestamp) → Event
  carried : (circuit bytes : ℕ) → Event
  aged : (now : Timestamp) → Event
  close : (circuit : ℕ) → Event

unfoldable pub step : Event → RelayGuard → RelayGuard
unfolding try_reserve release open_circuit record_bytes expire close_circuit
step (reserve requester handle now) self = (try_reserve requester handle now self).1
step (give_up reservation) self = release reservation self
step (connect reservation now) self = (open_circuit reservation now self).1
step (carried circuit bytes) self = (record_bytes circuit bytes self).1
step (aged now) self = (expire now self).1
step (close circuit) self = close_circuit circuit self

unfoldable pub run : List Event → RelayGuard → RelayGuard
unfolding step
run [] self = self
run (e ∷ rest) self = run rest (step e self)

step-limits : (e : Event) (self : RelayGuard) → (step e self).limits ≡ self.limits
unfolding step
step-limits (reserve requester handle now) self = unfold try_reserve in ground arith
step-limits (give_up reservation) self = unfold release in refl
step-limits (connect reservation now) self = unfold open_circuit in ground arith
step-limits (carried circuit bytes) self = unfold record_bytes record_on in ground arith
step-limits (aged now) self = unfold expire in refl
step-limits (close circuit) self = unfold close_circuit in refl

step-IsWithin :
    (e : Event) (self : RelayGuard) → IsU32 self.limits → IsWithin self → IsWithin (step e self)
unfolding step
step-IsWithin (reserve requester handle now) self small within =
    try_reserve-IsWithin requester handle now self small within
step-IsWithin (give_up reservation) self small within = release-IsWithin reservation self within
step-IsWithin (connect reservation now) self small within =
    open_circuit-IsWithin reservation now self small within
step-IsWithin (carried circuit bytes) self small within =
    record_bytes-IsWithin circuit bytes self within
step-IsWithin (aged now) self small within = expire-IsWithin now self within
step-IsWithin (close circuit) self small within = close_circuit-IsWithin circuit self within

run_keeps-IsWithin :
    (events : List Event) (self : RelayGuard)
    → IsU32 self.limits
    → IsWithin self
    → IsWithin (run events self)
unfolding run
run_keeps-IsWithin [] self small within = within
run_keeps-IsWithin (e ∷ rest) self small within =
    run_keeps-IsWithin rest (step e self) (subst IsU32 (sym (step-limits e self)) small)
      (step-IsWithin e self small within)

new-IsWithin : (limits : RelayLimits) → IsWithin (new limits)
unfolding new
new-IsWithin limits = record {
  reservations_bound = omega arith;
  identity_bound = λ identity. omega arith;
  invite_bound = λ invite. omega arith;
  circuits_bound = omega arith;
  backed = refl;
  bytes_bound = refl;
}

-- Whatever a new relay is asked to do, it stays within its ceilings on reservations, on those of
-- one identity, on those through one invite and on circuits, every open circuit stands on a live
-- reservation, and none has carried more than the ceiling on its bytes. The ceilings are below
-- 2^32.
pub relay-IsWithin :
    (events : List Event) (limits : RelayLimits) → IsU32 limits → IsWithin (run events (new limits))
relay-IsWithin events limits small =
    run_keeps-IsWithin events (new limits) (unfold new in small) (new-IsWithin limits)
