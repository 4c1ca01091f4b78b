-- ===== src/Transport/MediaRelay/Recipients.antt =====
-- Whom a media relay forwards a frame to.
use distributed_intranet.Base.{
  ℕ, ◌≡◌, ◌≢◌, ◌↔◌, refl, sym, subst, Bool, true, not, ◌&&◌, Option, none, some, List, [], ◌∷◌,
  arith, inl, inr,
}
use distributed_intranet.Base.Tests.{◌==◌, Bool-cases}
use distributed_intranet.Base.Lists.{Among, here, there, Among-cons, Among-nil, filter}
use distributed_intranet.Base.Order.{nat_ord, ◌=?◌, eq_of_=?}
use distributed_intranet.Map.{get, keys, contains_key}
use distributed_intranet.Transport.MediaRelay.{
  MediaRelayGuard, granted, Participants, Recipient, one, participants, FanOut, addressed, charge,
  authorize_within, authorize,
}

Among-of_filter :
    (test : ℕ → Bool) {i : ℕ} (xs : List ℕ)
    → Among i (filter test xs)
    → Among i xs × (test i ≡ true)
Among-of_filter test [] m = absurd (Among-nil m)
Among-of_filter test {i} (x ∷ xs) m = elim (Bool-cases (test x)) [
  | inl kept ↦
      elim (Among-cons (
        subst (λ (l : List ℕ). Among i l) {x = filter test (x ∷ xs)} {y = x ∷ filter test xs}
          (rw kept refl) m)) [
            | inl same ↦ (
              subst (λ j. Among j (x ∷ xs)) (sym same) here,
              subst (λ j. test j ≡ true) (sym same) kept,
            )
            | inr later ↦
                let (inside, passes) = Among-of_filter test xs later in (there inside, passes)
          ]
  | inr dropped ↦
      let (inside, passes) = Among-of_filter test xs (
        subst (λ (l : List ℕ). Among i l) {x = filter test (x ∷ xs)} {y = filter test xs}
          (rw dropped refl) m) in
      (there inside, passes)
]

Among-filter :
    (test : ℕ → Bool) {i : ℕ} {xs : List ℕ} → Among i xs → test i ≡ true → Among i (filter test xs)
Among-filter test here h = rw h here
Among-filter test (there {x = x} m) h = elim (Bool-cases (test x)) [
  | inl kept ↦ rw kept (there (Among-filter test m h))
  | inr dropped ↦ rw dropped (Among-filter test m h)
]

keys_of_contains :
    (i : ℕ) (members : Participants) → contains_key i members ≡ true → Among i (keys members)
unfolding get
keys_of_contains i [] h = cc
keys_of_contains i ((j, u) ∷ members) h = elim (Bool-cases (j =? i)) [
  | inl same ↦ subst (λ k. Among i (k ∷ keys members)) (sym (eq_of_=? j i same)) here
  | inr other ↦ there (keys_of_contains i members (ground arith))
]

contains_of_keys :
    (i : ℕ) (members : Participants) → Among i (keys members) → contains_key i members ≡ true
unfolding get
contains_of_keys i [] m = absurd (Among-nil m)
contains_of_keys i ((j, u) ∷ members) m = elim (Among-cons m) [
  | inl same ↦ ground arith
  | inr later ↦ ground (arith, contains_of_keys i members later)
]

-- Who is to get a frame from `from` through `self_id`. A named target may be its sender.
abbrev pub MayReceive : Recipient → ℕ → ℕ → Participants → ℕ → Type 0
MayReceive participants from self_id members i =
    (contains_key i members ≡ true) × (i ≢ from) × (i ≢ self_id)
MayReceive (one target) from self_id members i = (contains_key i members ≡ true) × (i ≡ target)

addressed_lem :
    (to : Recipient) (from self_id : ℕ) (members : Participants) {fan : FanOut} (i : ℕ)
    → addressed to from self_id members ≡ some fan
    → Among i fan.recipients
    → MayReceive to from self_id members i
unfolding addressed
addressed_lem participants from self_id members {fan} i h m =
    let test : ℕ → Bool = λ id. not (id == from) && not (id == self_id) in
    let same : fan.recipients ≡ filter test (keys members) = cc in
    let (inside, passes) = Among-of_filter test (keys members) (
      subst (λ (l : List ℕ). Among i l) {x = fan.recipients} {y = filter test (keys members)} same
        m) in
    (contains_of_keys i members inside, ground arith, ground arith)
addressed_lem (one target) from self_id members {fan} i h m =
    elim (Bool-cases (contains_key target members)) [
      | inl inside ↦
          (let same : fan.recipients ≡ target ∷ [] = ground arith in
            elim (Among-cons
              (subst (λ (l : List ℕ). Among i l) {x = fan.recipients} {y = target ∷ []} same m)) [
                | inl it ↦ (rw it inside, it)
                | inr later ↦ absurd (Among-nil later)
              ])
      | inr outside ↦ absurd (ground arith)
    ]

addressed_all :
    (to : Recipient) (from self_id : ℕ) (members : Participants) {fan : FanOut} (i : ℕ)
    → addressed to from self_id members ≡ some fan
    → MayReceive to from self_id members i
    → Among i fan.recipients
unfolding addressed
addressed_all participants from self_id members {fan} i h (inside, other, away) =
    let test : ℕ → Bool = λ id. not (id == from) && not (id == self_id) in
    let same : filter test (keys members) ≡ fan.recipients = cc in
    subst (λ (l : List ℕ). Among i l) same
      (Among-filter test (keys_of_contains i members inside) (ground arith))
addressed_all (one target) from self_id members {fan} i h (inside, it) =
    let same : target ∷ [] ≡ fan.recipients = ground arith in
    subst (λ (l : List ℕ). Among i l) same (subst (λ j. Among j (target ∷ [])) (sym it) here)

charge_lem :
    (frame_bytes : ℕ) (self : MediaRelayGuard) (o : Option FanOut) (fan : FanOut)
    → (charge frame_bytes self o).0 ≡ granted fan
    → o ≡ some fan
unfolding charge
charge_lem frame_bytes self none fan h = cc
charge_lem frame_bytes self (some f) fan h = ground arith

within_lem :
    (from : ℕ) (to : Recipient) (frame_bytes self_id : ℕ) (self : MediaRelayGuard)
    (o : Option Participants) (fan : FanOut)
    → (authorize_within from to frame_bytes self_id self o).0 ≡ granted fan
    → (members : Participants) × (o ≡ some members)
      × (contains_key from members ≡ true)
      × ((i : ℕ) → Among i fan.recipients ↔ MayReceive to from self_id members i)
unfolding authorize_within
within_lem from to frame_bytes self_id self none fan h = cc
within_lem from to frame_bytes self_id self (some members) fan h =
    elim (Bool-cases (contains_key from members)) [
      | inl inside ↦ (
        members,
        refl,
        inside,
        λ i.
            let found =
              charge_lem frame_bytes self (addressed to from self_id members) fan
                (rw inside at h) in
            (
              addressed_lem to from self_id members i found,
              addressed_all to from self_id members i found,
            ),
      )
      | inr outside ↦ absurd (ground arith)
    ]

-- A frame that is forwarded is of a participant of a call that the relay carries, and goes to
-- exactly these: under fan-out every participant but the frame's sender and the relay itself; else
-- the one who is named, who is a participant too, be it the sender or the relay.
pub forwarded_within_call :
    (call from : ℕ) (to : Recipient) (frame_bytes self_id : ℕ) (self : MediaRelayGuard)
    (fan : FanOut)
    → (authorize call from to frame_bytes self_id self).0 ≡ granted fan
    → (members : Participants) × (get call self.calls ≡ some members)
      × (contains_key from members ≡ true)
      × ((i : ℕ) → Among i fan.recipients ↔ MayReceive to from self_id members i)
unfolding authorize
forwarded_within_call call from to frame_bytes self_id self fan h =
    within_lem from to frame_bytes self_id self (get call self.calls) fan h
