-- ===== src/Transport/Relay.antt =====
-- crates/intranet-transport/src/relay_limits.rs: bootstrap reservations and circuits. An operation
-- returns its answer and the guard after it.
pub mod Within
pub mod Run
use distributed_intranet.Base.{
  ℕ, ◌+◌, ◌*◌, ◌%◌, min, Bool, true, false, not, ◌&&◌, Option, none, some, List, [], ◌∷◌, map,
}
use distributed_intranet.Base.Tests.{ltb, leb, ◌==◌, if◌then◌else◌, is_some}
use distributed_intranet.Base.Lists.{length, filter}
use distributed_intranet.Base.Int.{ℤ, pos, ltb_ℤ, word, saturating_add}
use distributed_intranet.Base.Order.{nat_ord}
use distributed_intranet.Map.{Map, get, insert, remove, retain, keys, values, contains_key}
use distributed_intranet.Crypto.Time.{Timestamp, millis_since}

pub data Requester : Type 0 where
  admitted : (identity : ℕ) → Requester
  pre_admission : (identity invite : ℕ) → Requester

abbrev pub identity_of : Requester → ℕ
identity_of (admitted identity) = identity
identity_of (pre_admission identity invite) = identity

abbrev pub invite_of : Requester → Option ℕ
invite_of (admitted identity) = none
invite_of (pre_admission identity invite) = some invite

pub record RelayLimits : Type 0 where
  pub max_reservations : ℕ
  pub max_reservations_per_identity : ℕ
  pub max_reservations_per_invite : ℕ
  pub max_circuits : ℕ
  pub max_circuit_duration_millis : ℤ
  pub max_circuit_bytes : ℕ

-- `Default`
abbrev pub default_limits : RelayLimits
default_limits = record {
  max_reservations = 128;
  max_reservations_per_identity = 4;
  max_reservations_per_invite = 8;
  max_circuits = 32;
  max_circuit_duration_millis = pos 60000;
  max_circuit_bytes = 256 * 1024;
}

pub data RelayDenied : Type 0 where
  reservation_ceiling circuit_ceiling : (limit : ℕ) → RelayDenied
  identity_ceiling invite_ceiling : (subject limit : ℕ) → RelayDenied
  no_reservation no_circuit : RelayDenied

pub data CircuitClosure : Type 0 where
  duration_exceeded byte_ceiling_exceeded : CircuitClosure

pub record Reservation : Type 0 where
  pub requester : Requester
  pub handle : ℕ
  pub granted_at : Timestamp

pub record Circuit : Type 0 where
  pub reservation : ℕ
  pub opened_at : Timestamp
  pub bytes : ℕ

pub record RelayGuard : Type 0 where
  pub limits : RelayLimits
  pub reservations : Map ℕ Reservation
  pub circuits : Map ℕ Circuit
  pub next_id : ℕ

pub data Answer {ℓ} (A : Type ℓ) : Type ℓ where
  granted : A → Answer A
  denied : RelayDenied → Answer A

unfoldable pub new : RelayLimits → RelayGuard
new limits = record { limits = limits; reservations = []; circuits = []; next_id = 0 }

-- `as u32`
abbrev pub as_u32 : ℕ → ℕ
as_u32 n = n % 0x100000000

abbrev pub held_by : ℕ → Reservation → Bool
held_by identity r = identity_of r.requester == identity

abbrev pub is_invite : ℕ → Option ℕ → Bool
is_invite invite none = false
is_invite invite (some other) = other == invite

abbrev pub through : ℕ → Reservation → Bool
through invite r = is_invite invite (invite_of r.requester)

abbrev pub count : (Reservation → Bool) → Map ℕ Reservation → ℕ
count test m = length (filter test (values m))

unfoldable pub reservations_for : ℕ → RelayGuard → ℕ
reservations_for identity self = count (held_by identity) self.reservations

unfoldable pub reservations_for_invite : ℕ → RelayGuard → ℕ
reservations_for_invite invite self = count (through invite) self.reservations

-- The check of the invite that a requester comes with, if it comes with one.
abbrev pub invite_full : RelayGuard → Option ℕ → Bool
invite_full self none = false
invite_full self (some invite) =
    leb self.limits.max_reservations_per_invite (as_u32 (count (through invite) self.reservations))

abbrev pub invite_or : ℕ → Option ℕ → ℕ
invite_or d none = d
invite_or d (some invite) = invite

-- `take_id`: the identifier taken, and the guard that is past it
abbrev pub past_id : RelayGuard → RelayGuard
past_id self = record self { next_id = (self.next_id + 1) % word }

unfoldable pub try_reserve : Requester → ℕ → Timestamp → RelayGuard → Answer ℕ × RelayGuard
unfolding insert
try_reserve requester handle now self =
    if leb self.limits.max_reservations (as_u32 (length self.reservations))
    then (denied (reservation_ceiling self.limits.max_reservations), self)
    else if leb self.limits.max_reservations_per_identity
        (as_u32 (count (held_by (identity_of requester)) self.reservations))
    then (
      denied (identity_ceiling (identity_of requester) self.limits.max_reservations_per_identity),
      self,
    )
    else if invite_full self (invite_of requester)
    then (
      denied (
          invite_ceiling (invite_or 0 (invite_of requester))
            self.limits.max_reservations_per_invite),
      self,
    )
    else (
      granted self.next_id,
      record (past_id self) {
        reservations =
            insert self.next_id
              (record { requester = requester; handle = handle; granted_at = now })
              self.reservations;
      },
    )

unfoldable pub release : ℕ → RelayGuard → RelayGuard
unfolding remove retain
release reservation self = record self {
  reservations = remove reservation self.reservations;
  circuits = retain (λ _ circuit. not (circuit.reservation == reservation)) self.circuits;
}

unfoldable pub open_circuit : ℕ → Timestamp → RelayGuard → Answer ℕ × RelayGuard
unfolding get insert
open_circuit reservation now self =
    if not (contains_key reservation self.reservations)
    then (denied no_reservation, self)
    else if leb self.limits.max_circuits (as_u32 (length self.circuits))
    then (denied (circuit_ceiling self.limits.max_circuits), self)
    else (
      granted self.next_id,
      record (past_id self) {
        circuits =
            insert self.next_id (record { reservation = reservation; opened_at = now; bytes = 0 })
              self.circuits;
      },
    )

unfoldable pub record_on :
    ℕ → ℕ → RelayGuard → Option Circuit → Answer (Option CircuitClosure) × RelayGuard
unfolding insert remove
record_on circuit bytes self none = (denied no_circuit, self)
record_on circuit bytes self (some entry) =
    let carried = saturating_add entry.bytes bytes in
    if ltb self.limits.max_circuit_bytes carried
    then (
      granted (some byte_ceiling_exceeded),
      record self { circuits = remove circuit self.circuits },
    )
    else (
      granted none,
      record self { circuits = insert circuit (record entry { bytes = carried }) self.circuits },
    )

unfoldable pub record_bytes : ℕ → ℕ → RelayGuard → Answer (Option CircuitClosure) × RelayGuard
unfolding record_on get
record_bytes circuit bytes self = record_on circuit bytes self (get circuit self.circuits)

abbrev pub outlived : RelayGuard → Timestamp → Circuit → Bool
outlived self now circuit =
    ltb_ℤ self.limits.max_circuit_duration_millis (millis_since now circuit.opened_at)

-- `for id in &expired { self.circuits.remove(id); }`
unfoldable pub close_each : List ℕ → Map ℕ Circuit → Map ℕ Circuit
unfolding remove
close_each [] circuits = circuits
close_each (id ∷ rest) circuits = close_each rest (remove id circuits)

unfoldable pub expire : Timestamp → RelayGuard → List (ℕ × CircuitClosure) × RelayGuard
unfolding millis_since retain close_each
expire now self =
    let expired = keys (retain (λ _ c. outlived self now c) self.circuits) in
    (
      map (λ id. (id, duration_exceeded)) expired,
      record self { circuits = close_each expired self.circuits },
    )

unfoldable pub close_circuit : ℕ → RelayGuard → RelayGuard
unfolding remove
close_circuit circuit self = record self { circuits = remove circuit self.circuits }
