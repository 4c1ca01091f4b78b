-- ===== src/Transport/Tests.antt =====
-- The guards' theorems at concrete limits and runs.
use distributed_intranet.Base.{
  false, ◌↔◌, ℕ, ◌+◌, ◌*◌, ◌≤◌, ◌≡◌, refl, true, none, some, List, [], ◌∷◌, arith,
}
use distributed_intranet.Base.Lists.{Among, length}
use distributed_intranet.Base.Int.{pos}
use distributed_intranet.Base.Order.{nat_ord}
use distributed_intranet.Map.{get, insert, contains_key}
use distributed_intranet.Transport.MediaRelay
use distributed_intranet.Transport.Relay
use distributed_intranet.Transport.DirectMeter
use distributed_intranet.Transport.DirectMeter.Bounds.{IsBounded}
use distributed_intranet.Transport.DirectMeter.Rate.{
  AllBy, within, admitted, after, rate_bound, after-IsBounded,
}
use distributed_intranet.Transport.MediaRelay.{
  MediaRelayGuard, granted, Participants, one, participants, FanOut, authorize,
}
use distributed_intranet.Transport.MediaRelay.Budget.{
  AllFit, relimit, carry, frame, tick, total, credit, total_within_budget,
}
use distributed_intranet.Transport.MediaRelay.Within.{
  peak, calls_ceiling, participants_ceiling, run-IsWithin,
}
use distributed_intranet.Transport.MediaRelay.Recipients.{MayReceive, forwarded_within_call}
use distributed_intranet.Transport.Relay.{pre_admission}
use distributed_intranet.Transport.Relay.Run.{
  reserve, connect, carried, aged, give_up, relay-IsWithin,
}

abbrev lower : MediaRelay.MediaRelayLimits
lower = record {
  max_calls = 0;
  max_participants_per_call = 2;
  forward_bytes_per_sec = 400;
  burst_bytes = 1500;
}

abbrev call_events : List MediaRelay.Budget.Event
call_events =
    carry 9 (1 ∷ 2 ∷ 3 ∷ [])
    ∷ tick (pos 1000)
    ∷ frame 9 1 participants 700 2
    ∷ relimit lower
    ∷ tick (pos 3000)
    ∷ frame 9 2 (one 3) 900 2
    ∷ []

-- A relay of one call among 1, 2 and 3, with 2000 bytes to spend.
abbrev carrying : MediaRelayGuard
carrying = record {
  limits = record {
    max_calls = 1;
    max_participants_per_call = 3;
    forward_bytes_per_sec = 500;
    burst_bytes = 2000;
  };
  calls = (9, (1, tt) ∷ (2, tt) ∷ (3, tt) ∷ []) ∷ [];
  allowance = 2000;
  last_refill = none;
  forwarded_bytes = 0;
  refusals = 0;
}

all_fit : AllFit call_events carrying
unfolding MediaRelay.Budget.leaving MediaRelay.Budget.step MediaRelay.set_limits
    MediaRelay.try_carry authorize MediaRelay.refill
all_fit = omega arith

total_within_budget_example :
    1000 * total call_events carrying ≤ 1000 * 2000 + credit call_events carrying
total_within_budget_example = total_within_budget call_events carrying all_fit

run-IsWithin_example :
    MediaRelay.Within.IsWithin
      (peak calls_ceiling call_events 1)
      (peak participants_ceiling call_events 3)
      (MediaRelay.Within.run call_events (MediaRelay.new carrying.limits))
run-IsWithin_example = run-IsWithin call_events carrying.limits

abbrev to_three : FanOut
to_three = record { recipients = 3 ∷ []; deliver_locally = true }

fans_out : (authorize 9 1 participants 700 2 carrying).0 ≡ granted to_three
unfolding authorize
fans_out = refl

forwarded_within_call_example :
    (members : Participants) × (get 9 carrying.calls ≡ some members)
    × (contains_key 1 members ≡ true)
    × ((i : ℕ) → Among i to_three.recipients ↔ MayReceive participants 1 2 members i)
forwarded_within_call_example =
    forwarded_within_call 9 1 participants 700 2 carrying to_three fans_out

-- A frame addressed to its own sender is sent back, the doc of `FanOut::recipients` notwithstanding.
sent_back :
    (authorize 9 1 (one 1) 700 2 carrying).0
    ≡ granted (record { recipients = 1 ∷ []; deliver_locally = false })
unfolding authorize
sent_back = refl

abbrev relay_events : List Relay.Run.Event
relay_events =
    reserve (Relay.Requester.admitted 4) 1 (pos 0)
    ∷ reserve (pre_admission 5 77) 2 (pos 1)
    ∷ connect 0 (pos 2)
    ∷ carried 2 4096
    ∷ aged (pos 90000)
    ∷ give_up 0
    ∷ []

relay-IsWithin_example :
    Relay.Within.IsWithin (Relay.Run.run relay_events (Relay.new Relay.default_limits))
relay-IsWithin_example = relay-IsWithin relay_events Relay.default_limits (omega arith)

-- Seven messages of sender 3 within a second, and one of sender 4.
abbrev burst : List (ℕ × ℕ)
burst = (3, 10) ∷ (3, 20) ∷ (3, 30) ∷ (4, 35) ∷ (3, 40) ∷ (3, 50) ∷ (3, 60) ∷ (3, 70) ∷ []

by_ninety : AllBy 90 burst
by_ninety = ground arith

rate_bound_example : within 90 (admitted 3 burst DirectMeter.new) ≤ 5
rate_bound_example = rate_bound 90 3 burst by_ninety

after-IsBounded_example : IsBounded (after burst DirectMeter.new)
after-IsBounded_example = after-IsBounded burst

five_of_seven : length (admitted 3 burst DirectMeter.new) ≡ 5
unfolding admitted DirectMeter.admit DirectMeter.note get insert DirectMeter.new
five_of_seven = refl
