-- ===== src/Transport/MediaRelay/Within.antt =====
-- What a media relay agrees to carry, over a run in which its ceilings change too.
use distributed_intranet.Base.{
  ℕ, max, ◌≤◌, ◌≡◌, refl, subst, false, not, ◌&&◌, Option, none, some, List, [], ◌∷◌, arith, inl,
  inr,
}
use distributed_intranet.Base.Tests.{ltb, leb, Bool-cases}
use distributed_intranet.Base.Lists.{length}
use distributed_intranet.Base.Order.{◌=?◌, nat_ord}
use distributed_intranet.Map.{get, insert, contains_key}
use distributed_intranet.Map.Laws.{get-insert, get-remove, length-insert, length-remove}
use distributed_intranet.Crypto.Time.{Timestamp}
use distributed_intranet.Transport.MediaRelay.{
  MediaRelayLimits, MediaRelayGuard, Participants, Recipient, FanOut, new, set_limits, try_carry,
  stop_carrying, addressed, charge, authorize_within, authorize, refill_since, refill, collect_set,
}
use distributed_intranet.Transport.MediaRelay.Budget.{
  Event, relimit, carry, stop, frame, tick, step,
}

-- At most so many calls are carried, each with at most so many participants, and the ceilings in
-- force are no higher.
pub record IsWithin (most_calls most_participants : ℕ) (self : MediaRelayGuard) : Type 0 where
  pub ceiling_on_calls : self.limits.max_calls ≤ most_calls
  pub ceiling_on_participants : self.limits.max_participants_per_call ≤ most_participants
  pub calls_bound : length self.calls ≤ most_calls
  pub participants_bound :
      (call : ℕ) (members : Participants)
      → get call self.calls ≡ some members
      → length members ≤ most_participants

charge_keeps :
    (frame_bytes : ℕ) (self : MediaRelayGuard) (fan : Option FanOut)
    → ((charge frame_bytes self fan).1.calls ≡ self.calls)
      × ((charge frame_bytes self fan).1.limits ≡ self.limits)
unfolding charge
charge_keeps frame_bytes self none = (refl, refl)
charge_keeps frame_bytes self (some fan) = ground arith

authorize_keeps :
    (from : ℕ) (to : Recipient) (frame_bytes self_id : ℕ) (self : MediaRelayGuard)
    (members : Option Participants)
    → ((authorize_within from to frame_bytes self_id self members).1.calls ≡ self.calls)
      × ((authorize_within from to frame_bytes self_id self members).1.limits ≡ self.limits)
unfolding authorize_within
authorize_keeps from to frame_bytes self_id self none = (refl, refl)
authorize_keeps from to frame_bytes self_id self (some members) =
    elim (Bool-cases (contains_key from members)) [
      | inl inside ↦ rw inside (charge_keeps frame_bytes self (addressed to from self_id members))
      | inr outside ↦ rw outside (refl, refl)
    ]

refill_keeps :
    (now : Timestamp) (self : MediaRelayGuard) (last : Option Timestamp)
    → ((refill_since now self last).calls ≡ self.calls)
      × ((refill_since now self last).limits ≡ self.limits)
unfolding refill_since
refill_keeps now self none = (refl, refl)
refill_keeps now self (some last) = ground arith

-- The ceilings that an event sets; 0 where it sets none.
abbrev pub calls_ceiling : Event → ℕ
calls_ceiling (relimit limits) = limits.max_calls
calls_ceiling _ = 0

abbrev pub participants_ceiling : Event → ℕ
participants_ceiling (relimit limits) = limits.max_participants_per_call
participants_ceiling _ = 0

-- The highest ceiling of a run: the first one, or one that the run sets.
abbrev pub peak : (Event → ℕ) → List Event → ℕ → ℕ
peak ceiling [] first = first
peak ceiling (e ∷ rest) first = max (ceiling e) (peak ceiling rest first)

first_in_peak :
    (ceiling : Event → ℕ) (events : List Event) (first : ℕ) → first ≤ peak ceiling events first
first_in_peak ceiling [] first = omega arith
first_in_peak ceiling (e ∷ rest) first = omega (arith, first_in_peak ceiling rest first)

-- The guard after a run of events.
unfoldable pub run : List Event → MediaRelayGuard → MediaRelayGuard
unfolding step
run [] self = self
run (e ∷ rest) self = run rest (step e self)

module _ (most_calls most_participants : ℕ) where
  abbrev Within : MediaRelayGuard → Type 0
  Within self = IsWithin most_calls most_participants self

  IsWithin-same :
      (self next : MediaRelayGuard)
      → next.calls ≡ self.calls
      → next.limits ≡ self.limits
      → Within self
      → Within next
  IsWithin-same self next c l within = record {
    ceiling_on_calls = let b = within.ceiling_on_calls in ground arith;
    ceiling_on_participants = let b = within.ceiling_on_participants in ground arith;
    calls_bound = let b = within.calls_bound in ground arith;
    participants_bound = λ call members found.
        let b = within.participants_bound call members (rw (← c) found) in ground arith;
  }

  inserted-IsWithin :
      (call : ℕ) (members : Participants) (self : MediaRelayGuard)
      → ltb self.limits.max_participants_per_call (length members) ≡ false
      → (not (contains_key call self.calls) && leb self.limits.max_calls (length self.calls))
        ≡ false
      → Within self
      → Within (record self { calls = insert call members self.calls })
  inserted-IsWithin call members self few room within =
      let b = within.calls_bound in
      let c = within.ceiling_on_calls in
      let d = within.ceiling_on_participants in
      record {
        ceiling_on_calls = c;
        ceiling_on_participants = d;
        calls_bound = ground (arith, length-insert call members self.calls);
        participants_bound = λ c ms found.
            let looked = get-insert call c members self.calls in
            elim (Bool-cases (call =? c)) [
              | inl same ↦
                  (let first : some members ≡ some ms = cc in
                    let equal : members ≡ ms = cc in
                    subst (λ (m : Participants). length m ≤ most_participants) equal (ground arith))
              | inr other ↦ within.participants_bound c ms (ground arith)
            ];
      }

  carry-IsWithin :
      (call : ℕ) (requested : List ℕ) (self : MediaRelayGuard)
      → Within self
      → Within (try_carry call requested self).1
  unfolding try_carry
  carry-IsWithin call requested self within =
      let members = collect_set requested [] in
      elim (Bool-cases (ltb self.limits.max_participants_per_call (length members))) [
        | inl many ↦ rw many (IsWithin-same self _ refl refl within)
        | inr few ↦
            elim (Bool-cases (
              not (contains_key call self.calls)
              && leb self.limits.max_calls (length self.calls))) [
                | inl full ↦ rw (few, full) (IsWithin-same self _ refl refl within)
                | inr room ↦ rw (few, room) (inserted-IsWithin call members self few room within)
              ]
      ]

  removed-IsWithin :
      (call : ℕ) (self : MediaRelayGuard) → Within self → Within (stop_carrying call self)
  unfolding stop_carrying
  removed-IsWithin call self within =
      let b = within.calls_bound in
      let c = within.ceiling_on_calls in
      let d = within.ceiling_on_participants in
      record {
        ceiling_on_calls = c;
        ceiling_on_participants = d;
        calls_bound = ground (arith, length-remove call self.calls);
        participants_bound = λ c ms found.
            let looked = get-remove call c self.calls in
            within.participants_bound c ms (ground arith);
      }

  step-IsWithin :
      (e : Event) (self : MediaRelayGuard)
      → calls_ceiling e ≤ most_calls
      → participants_ceiling e ≤ most_participants
      → Within self
      → Within (step e self)
  unfolding step authorize refill set_limits
  step-IsWithin (relimit limits) self h k within = record {
    ceiling_on_calls = h;
    ceiling_on_participants = k;
    calls_bound = within.calls_bound;
    participants_bound = within.participants_bound;
  }
  step-IsWithin (carry call requested) self h k within = carry-IsWithin call requested self within
  step-IsWithin (stop call) self h k within = removed-IsWithin call self within
  step-IsWithin (frame call from to frame_bytes self_id) self h k within =
      let (c, l) = authorize_keeps from to frame_bytes self_id self (get call self.calls) in
      IsWithin-same self _ c l within
  step-IsWithin (tick now) self h k within =
      let (c, l) = refill_keeps now self self.last_refill in IsWithin-same self _ c l within

  run_keeps-IsWithin :
      (events : List Event) (calls participants : ℕ) (self : MediaRelayGuard)
      → peak calls_ceiling events calls ≤ most_calls
      → peak participants_ceiling events participants ≤ most_participants
      → Within self
      → Within (run events self)
  unfolding run
  run_keeps-IsWithin [] calls participants self h k within = within
  run_keeps-IsWithin (e ∷ rest) calls participants self h k within =
      run_keeps-IsWithin rest calls participants (step e self) (omega arith) (omega arith)
        (step-IsWithin e self (omega arith) (omega arith) within)

  new-IsWithin :
      (limits : MediaRelayLimits)
      → limits.max_calls ≤ most_calls
      → limits.max_participants_per_call ≤ most_participants
      → Within (new limits)
  unfolding new get
  new-IsWithin limits h k = record {
    ceiling_on_calls = h;
    ceiling_on_participants = k;
    calls_bound = omega arith;
    participants_bound = λ call members found. cc found;
  }

-- Whatever happens to a new relay, changes of its ceilings included, it carries at most as many
-- calls as the highest ceiling on them that it ever had, none with more participants than the
-- highest ceiling on these.
pub run-IsWithin :
    (events : List Event) (limits : MediaRelayLimits)
    → IsWithin
        (peak calls_ceiling events limits.max_calls)
        (peak participants_ceiling events limits.max_participants_per_call)
        (run events (new limits))
run-IsWithin events limits =
    let calls = peak calls_ceiling events limits.max_calls in
    let members = peak participants_ceiling events limits.max_participants_per_call in
    run_keeps-IsWithin calls members events limits.max_calls limits.max_participants_per_call
      (new limits) (omega arith) (omega arith)
      (new-IsWithin calls members limits (first_in_peak calls_ceiling events limits.max_calls)
        (first_in_peak participants_ceiling events limits.max_participants_per_call))
