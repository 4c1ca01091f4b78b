-- ===== src/Transport/DirectMeter/Rate.antt =====
-- No sender is admitted more often in a window than the limit says.
use distributed_intranet.Base.{
  ℕ, ◌+◌, ◌≤◌, ◌≡◌, refl, subst, Bool, not, ◌&&◌, List, [], ◌∷◌, ◌++◌, arith, inl, inr,
}
use distributed_intranet.Base.Tests.{leb, ◌==◌, ==_iff, if◌then◌else◌, Bool-cases}
use distributed_intranet.Base.Lists.{length, filter, length-filter}
use distributed_intranet.Base.Order.{nat_ord}
use distributed_intranet.Map.{Map, get, insert, contains_key}
use distributed_intranet.Map.Laws.{get-insert, get-insert_self}
use distributed_intranet.Transport.DirectMeter.{
  per_window, max_tracked, DirectMeter, new, recent, prune, forget_stale, history_of, note,
  make_room, admit,
}
use distributed_intranet.Transport.DirectMeter.Bounds.{
  IsBounded, length-history_of, new-IsBounded, admit-IsBounded,
}

-- The instants at which a sender is admitted in a run of messages, each a sender and an instant.
unfoldable pub admitted : ℕ → List (ℕ × ℕ) → DirectMeter → List ℕ
unfolding admit
admitted sender [] self = []
admitted sender ((who, at) ∷ rest) self =
    let later = admitted sender rest (admit who at self).1 in
    if who == sender && (admit who at self).0 then at ∷ later else later

-- The meter after a run of messages.
unfoldable pub after : List (ℕ × ℕ) → DirectMeter → DirectMeter
unfolding admit
after [] self = self
after ((who, at) ∷ rest) self = after rest (admit who at self).1

abbrev pub AllBy : ℕ → List (ℕ × ℕ) → Type 0
AllBy now [] = Unit
AllBy now ((who, at) ∷ rest) = (at ≤ now) × AllBy now rest

-- How many of the instants are in the window that ends at `now`.
abbrev pub within : ℕ → List ℕ → ℕ
within now instants = length (filter (recent now) instants)

within-append : (now : ℕ) (xs ys : List ℕ) → within now (xs ++ ys) ≡ within now xs + within now ys
within-append now [] ys = omega arith
within-append now (x ∷ xs) ys = ground (arith, within-append now xs ys)

-- Pruning at an earlier instant takes nothing out of the window.
within-filter :
    (now at : ℕ) (xs : List ℕ) → at ≤ now → within now (filter (recent at) xs) ≡ within now xs
within-filter now at [] le = refl
within-filter now at (x ∷ xs) le = ground (arith, within-filter now at xs)

abbrev held : ℕ → ℕ → DirectMeter → ℕ
held now sender self = within now (history_of (get sender self.seen))

held-prune :
    (now at sender : ℕ) (m : Map ℕ (List ℕ))
    → at ≤ now
    → within now (history_of (get sender m)) ≤ within now (history_of (get sender (prune at m)))
unfolding prune get
held-prune now at sender [] le = omega arith
held-prune now at sender ((s, h) ∷ m) le =
    ground (arith, held-prune now at sender m, within-filter now at h)

-- What one message adds to the window of a sender.
abbrev added : ℕ → ℕ → ℕ → ℕ → Bool → ℕ
added now sender who at taken = if who == sender && taken then within now (at ∷ []) else 0

put_lem :
    (now sender who extra : ℕ) (h : List ℕ) (self : DirectMeter)
    → held now who self + extra ≤ within now h
    → held now sender self + (if who == sender then extra else 0)
      ≤ held now sender (record { seen = insert who h self.seen })
put_lem now sender who extra h self enough =
    let put = get-insert who sender h self.seen in
    elim (Bool-cases (who == sender)) [
      | inl same ↦
          (let e = (==_iff who sender).0 same in
            subst
              (λ s.
                held now s self + (if who == s then extra else 0)
                ≤ held now s (record { seen = insert who h self.seen }))
              e (let own = get-insert_self who h self.seen in ground arith))
      | inr other ↦ ground arith
    ]

note_lem :
    (now at sender who : ℕ) (self : DirectMeter)
    → at ≤ now
    → held now sender self + added now sender who at (note who at self).0
      ≤ held now sender (note who at self).1
unfolding note
note_lem now at sender who self le =
    let old = history_of (get who self.seen) in
    let pruned = filter (recent at) old in
    let same = within-filter now at old le in
    let longer = within-append now pruned (at ∷ []) in
    elim (Bool-cases (leb per_window (length pruned))) [
      | inl full ↦
          rw full (let k = put_lem now sender who 0 pruned self (omega arith) in ground arith)
      | inr free ↦ rw free (
          let k =
            put_lem now sender who (within now (at ∷ [])) (pruned ++ at ∷ []) self (omega arith) in
          ground arith)
    ]

admit_lem :
    (now at sender who : ℕ) (self : DirectMeter)
    → at ≤ now
    → held now sender self + added now sender who at (admit who at self).0
      ≤ held now sender (admit who at self).1
unfolding admit make_room forget_stale
admit_lem now at sender who self le =
    let stale = held-prune now at sender self.seen le in
    elim (Bool-cases (leb max_tracked (length self.seen) && not (contains_key who self.seen))) [
      | inl full ↦ elim (Bool-cases (leb max_tracked (length (prune at self.seen)))) [
        | inl still ↦ rw (full, still) (ground arith)
        | inr freed ↦
            rw (full, freed)
              (let k = note_lem now at sender who (record { seen = prune at self.seen }) le in
                omega arith)
      ]
      | inr usual ↦ rw usual (note_lem now at sender who self le)
    ]

run_lem :
    (now sender : ℕ) (messages : List (ℕ × ℕ)) (self : DirectMeter)
    → AllBy now messages
    → IsBounded self
    → held now sender self + within now (admitted sender messages self) ≤ per_window
unfolding admitted
run_lem now sender [] self by bounded =
    let b = length-history_of sender self bounded in
    let f = length-filter (recent now) (history_of (get sender self.seen)) in omega arith
run_lem now sender ((who, at) ∷ rest) self by bounded =
    let k = admit_lem now at sender who self by.0 in
    let ih =
      run_lem now sender rest (admit who at self).1 by.1 (admit-IsBounded who at self bounded) in
    ground arith

-- Of the messages that a new meter admits from one sender, at most five are in any window, which
-- ends at an instant that none of the run's messages is later than.
pub rate_bound :
    (now sender : ℕ) (messages : List (ℕ × ℕ))
    → AllBy now messages
    → within now (admitted sender messages new) ≤ per_window
rate_bound now sender messages by =
    let k = run_lem now sender messages new by new-IsBounded in omega arith

after_keeps-IsBounded :
    (messages : List (ℕ × ℕ)) (self : DirectMeter)
    → IsBounded self
    → IsBounded (after messages self)
unfolding after
after_keeps-IsBounded [] self bounded = bounded
after_keeps-IsBounded ((who, at) ∷ rest) self bounded =
    after_keeps-IsBounded rest (admit who at self).1 (admit-IsBounded who at self bounded)

-- A meter never tracks more than 4096 senders, nor more than five messages of one of them.
pub after-IsBounded : (messages : List (ℕ × ℕ)) → IsBounded (after messages new)
after-IsBounded messages = after_keeps-IsBounded messages new new-IsBounded
