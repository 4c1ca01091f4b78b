-- ===== src/Transport/DirectMeter/Bounds.antt =====
-- The bounds on what a direct message meter keeps.
use distributed_intranet.Base.{
  ℕ, ◌+◌, ◌≤◌, ◌≡◌, ◌⊎◌, refl, true, not, ◌&&◌, Option, none, some, List, [], ◌∷◌, ◌++◌, arith, inl,
  inr,
}
use distributed_intranet.Base.Tests.{leb, Bool-cases}
use distributed_intranet.Base.Lists.{length, filter, length-filter, length-append}
use distributed_intranet.Base.Order.{nat_ord}
use distributed_intranet.Map.{Map, get, insert, contains_key}
use distributed_intranet.Map.Laws.{length-insert}
use distributed_intranet.Map.Counts.{every, every-insert, every-get}
use distributed_intranet.Transport.DirectMeter.{
  per_window, max_tracked, DirectMeter, new, recent, prune, forget_stale, history_of, note,
  make_room, admit,
}

-- At most so many senders are tracked, each with at most a window's messages.
pub record IsBounded (self : DirectMeter) : Type 0 where
  pub tracked : length self.seen ≤ max_tracked
  pub histories : every (λ h. leb (length h) per_window) self.seen ≡ true

length-history_found :
    (sender : ℕ) (self : DirectMeter) (o : Option (List ℕ))
    → get sender self.seen ≡ o
    → IsBounded self
    → length (history_of o) ≤ per_window
length-history_found sender self none found bounded = omega arith
length-history_found sender self (some h) found bounded =
    let e = every-get (λ h. leb (length h) per_window) sender self.seen found bounded.histories in
    ground arith

-- The history of one sender is within the window's messages.
pub length-history_of :
    (sender : ℕ) (self : DirectMeter)
    → IsBounded self
    → length (history_of (get sender self.seen)) ≤ per_window
length-history_of sender self bounded =
    length-history_found sender self (get sender self.seen) refl bounded

length-prune : (now : ℕ) (m : Map ℕ (List ℕ)) → length (prune now m) ≤ length m
unfolding prune
length-prune now [] = omega arith
length-prune now ((s, h) ∷ m) = ground (arith, length-prune now m)

every-prune :
    (now : ℕ) (m : Map ℕ (List ℕ))
    → every (λ h. leb (length h) per_window) m ≡ true
    → every (λ h. leb (length h) per_window) (prune now m) ≡ true
unfolding prune
every-prune now [] e = refl
every-prune now ((s, h) ∷ m) e = ground (arith, every-prune now m, length-filter (recent now) h)

forget_stale-IsBounded :
    (now : ℕ) (self : DirectMeter) → IsBounded self → IsBounded (forget_stale now self)
unfolding forget_stale
forget_stale-IsBounded now self bounded =
    let t = bounded.tracked in
    record {
      tracked = omega (arith, length-prune now self.seen);
      histories = every-prune now self.seen bounded.histories;
    }

inserted-IsBounded :
    (sender : ℕ) (h : List ℕ) (self : DirectMeter)
    → (length self.seen + 1 ≤ max_tracked) ⊎ (contains_key sender self.seen ≡ true)
    → length h ≤ per_window
    → IsBounded self
    → IsBounded (record { seen = insert sender h self.seen })
inserted-IsBounded sender h self room short bounded =
    let t = bounded.tracked in
    record {
      tracked = ground (arith, length-insert sender h self.seen);
      histories = every-insert _ sender h self.seen (ground arith) bounded.histories;
    }

note-IsBounded :
    (sender now : ℕ) (self : DirectMeter)
    → (length self.seen + 1 ≤ max_tracked) ⊎ (contains_key sender self.seen ≡ true)
    → IsBounded self
    → IsBounded (note sender now self).1
unfolding note
note-IsBounded sender now self room bounded =
    let history = filter (recent now) (history_of (get sender self.seen)) in
    let kept = length-filter (recent now) (history_of (get sender self.seen)) in
    let b = length-history_of sender self bounded in
    elim (Bool-cases (leb per_window (length history))) [
      | inl full ↦ rw full (inserted-IsBounded sender history self room (omega arith) bounded)
      | inr free ↦
          (let longer = length-append history (now ∷ []) in
            rw free
              (inserted-IsBounded sender (history ++ now ∷ []) self room (ground arith) bounded))
    ]

pub admit-IsBounded :
    (sender now : ℕ) (self : DirectMeter) → IsBounded self → IsBounded (admit sender now self).1
unfolding admit make_room
admit-IsBounded sender now self bounded =
    let t = bounded.tracked in
    let pruned = forget_stale-IsBounded now self bounded in
    elim (Bool-cases (leb max_tracked (length self.seen) && not (contains_key sender self.seen))) [
      | inl full ↦ elim (Bool-cases (leb max_tracked (length (forget_stale now self).seen))) [
        | inl still ↦ rw (full, still) pruned
        | inr freed ↦
            rw (full, freed)
              (note-IsBounded sender now (forget_stale now self) (inl (ground arith)) pruned)
      ]
      | inr usual ↦ rw usual (
          note-IsBounded sender now self
            (elim (Bool-cases (contains_key sender self.seen)) [
              | inl known ↦ inr known
              | inr unknown ↦ inl (ground arith)
            ])
            bounded)
    ]

pub new-IsBounded : IsBounded new
unfolding new
new-IsBounded = record { tracked = omega arith; histories = refl }
