-- ===== src/Transport/MediaRelay/Budget.antt =====
-- What a media relay forwards over a run of all the methods that change it.
use distributed_intranet.Base.{
  ℕ, ◌+◌, ◌*◌, ◌≤◌, ◌<◌, Option, none, some, List, [], ◌∷◌, arith, inl, inr,
}
use distributed_intranet.Base.Tests.{ltb, Bool-cases}
use distributed_intranet.Base.Lists.{length}
use distributed_intranet.Base.Int.{pos, leb_ℤ, saturating_mul, pos_part, word}
use distributed_intranet.Crypto.Time.{Timestamp, millis_since}
use distributed_intranet.Transport.MediaRelay.{
  MediaRelayLimits, MediaRelayGuard, Answer, granted, denied, Recipient, FanOut, set_limits,
  try_carry, stop_carrying, charge, authorize_within, authorize, refill_since, refill,
}

-- The calls of the methods that change a guard.
pub data Event : Type 0 where
  relimit : (limits : MediaRelayLimits) → Event
  carry : (call : ℕ) (requested : List ℕ) → Event
  stop : (call : ℕ) → Event
  frame : (call from : ℕ) (to : Recipient) (frame_bytes self_id : ℕ) → Event
  tick : (now : Timestamp) → Event

unfoldable pub step : Event → MediaRelayGuard → MediaRelayGuard
unfolding set_limits try_carry stop_carrying authorize refill
step (relimit limits) self = set_limits limits self
step (carry call requested) self = (try_carry call requested self).1
step (stop call) self = stop_carrying call self
step (frame call from to frame_bytes self_id) self =
    (authorize call from to frame_bytes self_id self).1
step (tick now) self = refill now self

-- Bytes that leave the node on an answer.
abbrev pub sent : ℕ → Answer FanOut → ℕ
sent frame_bytes (granted fan) = frame_bytes * length fan.recipients
sent frame_bytes (denied _) = 0

unfoldable pub leaving : Event → MediaRelayGuard → ℕ
unfolding authorize
leaving (frame call from to frame_bytes self_id) self =
    sent frame_bytes (authorize call from to frame_bytes self_id self).0
leaving _ self = 0

-- Milliseconds by which a clock reading is ahead of the last refill.
abbrev pub ahead : Option Timestamp → Timestamp → ℕ
ahead none now = 0
ahead (some last) now = pos_part (millis_since now last)

abbrev pub passing : Event → MediaRelayGuard → ℕ
passing (tick now) self = ahead self.last_refill now
passing _ self = 0

-- Bytes that leave over a run.
unfoldable pub total : List Event → MediaRelayGuard → ℕ
unfolding step leaving
total [] self = 0
total (e ∷ rest) self = leaving e self + total rest (step e self)

-- The rate in force at each refill times the milliseconds that the refill sees pass, over a run.
unfoldable pub credit : List Event → MediaRelayGuard → ℕ
unfolding step
credit [] self = 0
credit (e ∷ rest) self =
    self.limits.forward_bytes_per_sec * passing e self + credit rest (step e self)

-- No fan-out of the run is of 2 ^ 64 bytes or more.
abbrev pub AllFit : List Event → MediaRelayGuard → Type 0
AllFit [] self = Unit
AllFit (e ∷ rest) self = (leaving e self < word) × AllFit rest (step e self)

abbrev Paid : ℕ → ℕ → MediaRelayGuard → MediaRelayGuard → Type 0
Paid out time self next =
    1000 * (out + next.allowance) ≤ 1000 * self.allowance + self.limits.forward_bytes_per_sec * time

charge-Paid :
    (frame_bytes : ℕ) (self : MediaRelayGuard) (fan : Option FanOut)
    → sent frame_bytes (charge frame_bytes self fan).0 < word
    → Paid (sent frame_bytes (charge frame_bytes self fan).0) 0 self (charge frame_bytes self fan).1
unfolding charge
charge-Paid frame_bytes self none fits = omega arith
charge-Paid frame_bytes self (some fan) fits =
    elim (Bool-cases (ltb self.allowance (saturating_mul frame_bytes (length fan.recipients)))) [
      | inl short ↦ rw short (omega arith)
      | inr enough ↦ (let small = rw enough at fits in rw enough (ground arith))
    ]

refill-Paid :
    (now : Timestamp) (self : MediaRelayGuard) (last : Option Timestamp)
    → Paid 0 (ahead last now) self (refill_since now self last)
unfolding refill_since
refill-Paid now self none = omega arith
refill-Paid now self (some last) = elim (Bool-cases (leb_ℤ (millis_since now last) (pos 0))) [
  | inl back ↦ rw back (ground arith)
  | inr on ↦ rw on (ground arith)
]

step-Paid :
    (e : Event) (self : MediaRelayGuard)
    → leaving e self < word
    → Paid (leaving e self) (passing e self) self (step e self)
unfolding step leaving set_limits try_carry stop_carrying authorize authorize_within refill
step-Paid (relimit limits) self fits = ground arith
step-Paid (carry call requested) self fits = ground arith
step-Paid (stop call) self fits = ground arith
step-Paid (frame call from to frame_bytes self_id) self fits =
    ground (arith, charge-Paid frame_bytes self)
step-Paid (tick now) self fits = refill-Paid now self self.last_refill

-- Whatever calls a relay takes on, frames it is handed and ceilings it is set, the bytes that leave
-- it over a run in which no single fan-out is of 2 ^ 64 bytes or more are at most its allowance at
-- the start and what its refills earn: at each, the rate then in force times the time that passed.
pub total_within_budget :
    (events : List Event) (self : MediaRelayGuard)
    → AllFit events self
    → 1000 * total events self ≤ 1000 * self.allowance + credit events self
unfolding total credit
total_within_budget [] self fits = omega arith
total_within_budget (e ∷ rest) self fits =
    omega (arith, step-Paid e self fits.0, total_within_budget rest (step e self) fits.1)
