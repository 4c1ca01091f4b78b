-- ===== src/Transport/DirectMeter.antt =====
-- crates/intranet-transport/src/direct_limits.rs: how many messages a node takes from one sender.
-- An `Instant` is its nanoseconds since a fixed start.
pub mod Bounds
pub mod Rate
use distributed_intranet.Base.{
  ℕ, ◌-◌, ◌*◌, Bool, true, false, not, ◌&&◌, Option, none, some, List, [], ◌∷◌, ◌++◌,
}
use distributed_intranet.Base.Tests.{ltb, leb, if◌then◌else◌}
use distributed_intranet.Base.Lists.{length, filter, is_empty}
use distributed_intranet.Base.Order.{nat_ord}
use distributed_intranet.Map.{Map, get, insert, contains_key}

abbrev pub per_window : ℕ
per_window = 5

abbrev pub window : ℕ
window = 60 * 1000000000

abbrev pub max_tracked : ℕ
max_tracked = 4096

pub record DirectMeter : Type 0 where
  pub seen : Map ℕ (List ℕ)

unfoldable pub new : DirectMeter
new = record { seen = [] }

-- `now.duration_since(*at) < WINDOW`; the difference of an earlier instant is zero
abbrev pub recent : ℕ → ℕ → Bool
recent now at = ltb (now - at) window

-- The `retain` of `forget_stale`, which prunes each history and drops the empty ones.
unfoldable pub prune : ℕ → Map ℕ (List ℕ) → Map ℕ (List ℕ)
prune now [] = []
prune now ((sender, history) ∷ m) =
    let rest = prune now m in
    if is_empty (filter (recent now) history)
    then rest
    else (sender, filter (recent now) history) ∷ rest

unfoldable pub forget_stale : ℕ → DirectMeter → DirectMeter
unfolding prune
forget_stale now self = record { seen = prune now self.seen }

-- `entry(sender).or_default()`
abbrev pub history_of : Option (List ℕ) → List ℕ
history_of none = []
history_of (some history) = history

-- The second half of `admit`: count the message if there is room for it.
unfoldable pub note : ℕ → ℕ → DirectMeter → Bool × DirectMeter
unfolding get insert
note sender now self =
    let history = filter (recent now) (history_of (get sender self.seen)) in
    if leb per_window (length history)
    then (false, record { seen = insert sender history self.seen })
    else (true, record { seen = insert sender (history ++ now ∷ []) self.seen })

-- The first half of `admit`, for a sender who is new when the map is full.
unfoldable pub make_room : ℕ → ℕ → DirectMeter → Bool × DirectMeter
unfolding note
make_room sender now pruned =
    if leb max_tracked (length pruned.seen) then (false, pruned) else note sender now pruned

unfoldable pub admit : ℕ → ℕ → DirectMeter → Bool × DirectMeter
unfolding note make_room forget_stale get
admit sender now self =
    if leb max_tracked (length self.seen) && not (contains_key sender self.seen)
    then make_room sender now (forget_stale now self)
    else note sender now self
