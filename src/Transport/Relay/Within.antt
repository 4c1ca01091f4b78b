-- ===== src/Transport/Relay/Within.antt =====
-- The ceilings of a bootstrap relay, over any run of its operations.
use distributed_intranet.Base.{
  ℕ, ◌≤◌, ◌<◌, ◌≡◌, refl, Bool, true, not, Option, none, some, List, [], ◌∷◌, arith, inl, inr,
}
use distributed_intranet.Base.Tests.{ltb, leb, ◌==◌, Bool-cases}
use distributed_intranet.Base.Lists.{length}
use distributed_intranet.Base.Int.{saturating_add}
use distributed_intranet.Base.Order.{nat_ord}
use distributed_intranet.Map.{Map, get, insert, remove, retain, keys, contains_key}
use distributed_intranet.Map.Laws.{get-remove, length-insert, length-remove, length-retain}
use distributed_intranet.Map.Counts.{
  every, every-retain, every-remove, every-insert, every-get, passing-remove,
}
use distributed_intranet.Crypto.Time.{Timestamp}
use distributed_intranet.Transport.Relay.{
  RelayLimits, Circuit, RelayGuard, held_by, through, count, outlived, release, record_on,
  record_bytes, close_each, expire, close_circuit,
}

-- The ceilings are u32 values.
abbrev pub IsU32 : RelayLimits → Type 0
IsU32 limits =
    (limits.max_reservations < 0x100000000)
    × (limits.max_reservations_per_identity < 0x100000000)
    × (limits.max_reservations_per_invite < 0x100000000)
    × (limits.max_circuits < 0x100000000)

-- The ceilings hold, every circuit stands on a live reservation, and none has carried too much.
pub record IsWithin (self : RelayGuard) : Type 0 where
  pub reservations_bound : length self.reservations ≤ self.limits.max_reservations
  pub identity_bound :
      (identity : ℕ)
      → count (held_by identity) self.reservations ≤ self.limits.max_reservations_per_identity
  pub invite_bound :
      (invite : ℕ)
      → count (through invite) self.reservations ≤ self.limits.max_reservations_per_invite
  pub circuits_bound : length self.circuits ≤ self.limits.max_circuits
  pub backed : every (λ c. contains_key c.reservation self.reservations) self.circuits ≡ true
  pub bytes_bound : every (λ c. leb c.bytes self.limits.max_circuit_bytes) self.circuits ≡ true

-- Other circuits under the same reservations and limits.
abbrev pub with_circuits : RelayGuard → ℕ → Map ℕ Circuit → RelayGuard
with_circuits self next_id circuits = record self { circuits = circuits; next_id = next_id }

pub circuits-IsWithin :
    (self : RelayGuard) (next_id : ℕ) (circuits : Map ℕ Circuit)
    → length circuits ≤ self.limits.max_circuits
    → every (λ c. contains_key c.reservation self.reservations) circuits ≡ true
    → every (λ c. leb c.bytes self.limits.max_circuit_bytes) circuits ≡ true
    → IsWithin self
    → IsWithin (with_circuits self next_id circuits)
circuits-IsWithin self next_id circuits room live light within = record {
  reservations_bound = within.reservations_bound;
  identity_bound = within.identity_bound;
  invite_bound = within.invite_bound;
  circuits_bound = room;
  backed = live;
  bytes_bound = light;
}

every-close_each :
    (test : Circuit → Bool) (ids : List ℕ) (m : Map ℕ Circuit)
    → every test m ≡ true
    → every test (close_each ids m) ≡ true
unfolding close_each
every-close_each test [] m h = h
every-close_each test (j ∷ rest) m h =
    every-close_each test rest (remove j m) (every-remove test j m h)

length-close_each : (ids : List ℕ) (m : Map ℕ Circuit) → length (close_each ids m) ≤ length m
unfolding close_each
length-close_each [] m = omega arith
length-close_each (j ∷ rest) m =
    omega (arith, length-close_each rest (remove j m), length-remove j m)

pub expire-IsWithin :
    (now : Timestamp) (self : RelayGuard) → IsWithin self → IsWithin (expire now self).1
unfolding expire
expire-IsWithin now self within =
    let ids = keys (retain (λ _ c. outlived self now c) self.circuits) in
    let b = within.circuits_bound in
    circuits-IsWithin self self.next_id (close_each ids self.circuits)
      (omega (arith, length-close_each ids self.circuits))
      (every-close_each _ ids self.circuits within.backed)
      (every-close_each _ ids self.circuits within.bytes_bound) within

removed-IsWithin :
    (circuit : ℕ) (self : RelayGuard)
    → IsWithin self
    → IsWithin (with_circuits self self.next_id (remove circuit self.circuits))
removed-IsWithin circuit self within =
    let b = within.circuits_bound in
    circuits-IsWithin self self.next_id (remove circuit self.circuits)
      (omega (arith, length-remove circuit self.circuits))
      (every-remove _ circuit self.circuits within.backed)
      (every-remove _ circuit self.circuits within.bytes_bound) within

pub close_circuit-IsWithin :
    (circuit : ℕ) (self : RelayGuard) → IsWithin self → IsWithin (close_circuit circuit self)
unfolding close_circuit
close_circuit-IsWithin circuit self within = removed-IsWithin circuit self within

pub release-IsWithin :
    (reservation : ℕ) (self : RelayGuard) → IsWithin self → IsWithin (release reservation self)
unfolding release
release-IsWithin reservation self within =
    let keep : Circuit → Bool = λ c. not (c.reservation == reservation) in
    let b = within.circuits_bound in
    let r = within.reservations_bound in
    record {
      reservations_bound = omega (arith, length-remove reservation self.reservations);
      identity_bound = λ identity.
          let i = within.identity_bound identity in
          omega (arith, passing-remove (held_by identity) reservation self.reservations);
      invite_bound = λ invite.
          let i = within.invite_bound invite in
          omega (arith, passing-remove (through invite) reservation self.reservations);
      circuits_bound = omega (arith, length-retain (λ _ c. keep c) self.circuits);
      backed =
          every-retain keep _ _ self.circuits
            (λ c kept live. ground (arith, get-remove reservation c.reservation self.reservations))
            within.backed;
      bytes_bound = every-retain keep _ _ self.circuits (λ c kept light. light) within.bytes_bound;
    }

record_on-IsWithin :
    (circuit bytes : ℕ) (self : RelayGuard) (o : Option Circuit)
    → get circuit self.circuits ≡ o
    → IsWithin self
    → IsWithin (record_on circuit bytes self o).1
unfolding record_on
record_on-IsWithin circuit bytes self none found within = within
record_on-IsWithin circuit bytes self (some entry) found within =
    let carried = saturating_add entry.bytes bytes in
    elim (Bool-cases (ltb self.limits.max_circuit_bytes carried)) [
      | inl over ↦ rw over (removed-IsWithin circuit self within)
      | inr under ↦
          (let b = within.circuits_bound in
            let more : Circuit = record entry { bytes = carried } in
            rw under (
              circuits-IsWithin self self.next_id (insert circuit more self.circuits)
                (ground (arith, length-insert circuit more self.circuits))
                (every-insert _ circuit more self.circuits
                  (every-get (λ c. contains_key c.reservation self.reservations) circuit
                    self.circuits found within.backed)
                  within.backed)
                (every-insert _ circuit more self.circuits (ground arith) within.bytes_bound)
                within))
    ]

pub record_bytes-IsWithin :
    (circuit bytes : ℕ) (self : RelayGuard)
    → IsWithin self
    → IsWithin (record_bytes circuit bytes self).1
unfolding record_bytes
record_bytes-IsWithin circuit bytes self within =
    record_on-IsWithin circuit bytes self (get circuit self.circuits) refl within
