-- ===== src/Transport/MediaRelay.antt =====
-- crates/intranet-transport/src/media_limits.rs: what a node agreed to spend on relaying media.
-- An operation returns its answer and the guard after it.
pub mod Budget
pub mod Within
pub mod Recipients
use distributed_intranet.Base.{
  ℕ, ◌+◌, ◌-◌, ◌*◌, ◌/◌, ◌%◌, min, Bool, true, false, not, ◌&&◌, Option, none, some, List, [], ◌∷◌,
}
use distributed_intranet.Base.Tests.{ltb, leb, ◌==◌, if◌then◌else◌, is_some}
use distributed_intranet.Base.Lists.{length, filter}
use distributed_intranet.Base.Int.{ℤ, pos, pos_part, leb_ℤ, word, saturating_add, saturating_mul}
use distributed_intranet.Base.Order.{nat_ord}
use distributed_intranet.Map.{Map, get, insert, remove, keys, contains_key}
use distributed_intranet.Crypto.Time.{Timestamp, millis_since}

pub record MediaRelayLimits : Type 0 where
  pub max_calls : ℕ
  pub max_participants_per_call : ℕ
  pub forward_bytes_per_sec : ℕ
  pub burst_bytes : ℕ

-- `Default`
abbrev pub default_limits : MediaRelayLimits
default_limits = record {
  max_calls = 8;
  max_participants_per_call = 50;
  forward_bytes_per_sec = 1024 * 1024;
  burst_bytes = 2 * 1024 * 1024;
}

-- `within`, on the upload cap of the advertisement
unfoldable pub limits_within : ℕ → MediaRelayLimits
limits_within up_bytes_per_sec = record default_limits {
  forward_bytes_per_sec = up_bytes_per_sec;
  burst_bytes = saturating_mul up_bytes_per_sec 2;
}

pub data MediaRelayDenied : Type 0 where
  call_ceiling : (limit : ℕ) → MediaRelayDenied
  participant_ceiling : (limit requested : ℕ) → MediaRelayDenied
  not_carried sender_not_participant recipient_not_participant : MediaRelayDenied
  allowance_exhausted : (needed available : ℕ) → MediaRelayDenied

pub data Answer {ℓ} (A : Type ℓ) : Type ℓ where
  granted : A → Answer A
  denied : MediaRelayDenied → Answer A

-- `BTreeSet` of identities
abbrev pub Participants : Type 0
Participants = Map ℕ (Unit {0})

pub data Recipient : Type 0 where
  one : ℕ → Recipient
  participants : Recipient

pub record FanOut : Type 0 where
  pub recipients : List ℕ
  pub deliver_locally : Bool

pub record MediaRelayGuard : Type 0 where
  pub limits : MediaRelayLimits
  pub calls : Map ℕ Participants
  pub allowance : ℕ
  pub last_refill : Option Timestamp
  pub forwarded_bytes : ℕ
  pub refusals : ℕ

unfoldable pub new : MediaRelayLimits → MediaRelayGuard
new limits = record {
  limits = limits;
  calls = [];
  allowance = limits.burst_bytes;
  last_refill = none;
  forwarded_bytes = 0;
  refusals = 0;
}

unfoldable pub set_limits : MediaRelayLimits → MediaRelayGuard → MediaRelayGuard
set_limits limits self = record self {
  limits = limits;
  allowance = min self.allowance limits.burst_bytes;
}

abbrev pub refuse {ℓ} :
    {A : Type ℓ} → MediaRelayDenied → MediaRelayGuard → Answer A × MediaRelayGuard
refuse why self = (denied why, record self { refusals = (self.refusals + 1) % word })

-- `collect` into a `BTreeSet`
unfoldable pub collect_set : List ℕ → Participants → Participants
unfolding insert
collect_set [] set = set
collect_set (x ∷ rest) set = collect_set rest (insert x tt set)

unfoldable pub try_carry : ℕ → List ℕ → MediaRelayGuard → Answer (Unit {0}) × MediaRelayGuard
unfolding collect_set get insert
try_carry call requested self =
    let members = collect_set requested [] in
    if ltb self.limits.max_participants_per_call (length members)
    then refuse (participant_ceiling self.limits.max_participants_per_call (length members)) self
    else if not (contains_key call self.calls) && leb self.limits.max_calls (length self.calls)
    then refuse (call_ceiling self.limits.max_calls) self
    else (granted tt, record self { calls = insert call members self.calls })

unfoldable pub stop_carrying : ℕ → MediaRelayGuard → MediaRelayGuard
unfolding remove
stop_carrying call self = record self { calls = remove call self.calls }

-- The match on the recipient; `none` for a target outside the call.
unfoldable pub addressed : Recipient → ℕ → ℕ → Participants → Option FanOut
unfolding get
addressed participants from self_id members = some (record {
  recipients = filter (λ id. not (id == from) && not (id == self_id)) (keys members);
  deliver_locally = contains_key self_id members;
})
addressed (one target) from self_id members =
    if contains_key target members
    then some (record { recipients = target ∷ []; deliver_locally = false })
    else none

-- The charge for a fan-out, or its refusal.
unfoldable pub charge : ℕ → MediaRelayGuard → Option FanOut → Answer FanOut × MediaRelayGuard
charge frame_bytes self none = refuse recipient_not_participant self
charge frame_bytes self (some fan) =
    let cost = saturating_mul frame_bytes (length fan.recipients) in
    if ltb self.allowance cost then refuse (allowance_exhausted cost self.allowance) self else (
      granted fan,
      record self {
        allowance = self.allowance - cost;
        forwarded_bytes = (self.forwarded_bytes + cost) % word;
      },
    )

unfoldable pub authorize_within :
    ℕ → Recipient → ℕ → ℕ → MediaRelayGuard → Option Participants → Answer FanOut × MediaRelayGuard
unfolding addressed charge get
authorize_within from to frame_bytes self_id self none = refuse not_carried self
authorize_within from to frame_bytes self_id self (some members) =
    if contains_key from members
    then charge frame_bytes self (addressed to from self_id members)
    else refuse sender_not_participant self

unfoldable pub authorize :
    ℕ → ℕ → Recipient → ℕ → ℕ → MediaRelayGuard → Answer FanOut × MediaRelayGuard
unfolding authorize_within get
authorize call from to frame_bytes self_id self =
    authorize_within from to frame_bytes self_id self (get call self.calls)

-- Bytes earned in an interval: the product is at most 2^127, so that it does not saturate a u128.
abbrev pub earned : ℕ → ℤ → ℕ
earned rate elapsed = min (rate * pos_part elapsed / 1000) (word - 1)

unfoldable pub refill_since : Timestamp → MediaRelayGuard → Option Timestamp → MediaRelayGuard
unfolding millis_since
refill_since now self none = record self { last_refill = some now }
refill_since now self (some last) =
    let elapsed = millis_since now last in
    if leb_ℤ elapsed (pos 0) then record self { last_refill = some now } else record self {
      allowance =
          min (saturating_add self.allowance (earned self.limits.forward_bytes_per_sec elapsed))
            self.limits.burst_bytes;
      last_refill = some now;
    }

unfoldable pub refill : Timestamp → MediaRelayGuard → MediaRelayGuard
unfolding refill_since
refill now self = refill_since now self self.last_refill
