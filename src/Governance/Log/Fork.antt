-- ===== src/Governance/Log/Fork.antt =====
-- crates/intranet-governance/src/log.rs: the choice between branches. A branch is walked with fuel,
-- one for each entry of the log: no path of a log without cycles has more.
use distributed_intranet.Base.{
  ℕ, zero, suc, ◌+◌, Bool, true, false, ◌&&◌, ◌||◌, Option, none, some, List, [], ◌∷◌, ◌++◌,
}
use distributed_intranet.Base.Tests.{ltb, ◌==◌, if◌then◌else◌}
use distributed_intranet.Base.Lists.{length, filter, is_empty, rev}
use distributed_intranet.Base.Order.{nat_ord}
use distributed_intranet.Map.{get, keys}
use distributed_intranet.Governance.Entry.{LogEntry, is_capability_gated}
use distributed_intranet.Governance.Log.{GovernanceLog, or_default}

abbrev pub gated_entry : Option LogEntry → Bool
gated_entry none = false
gated_entry (some entry) = is_capability_gated entry

abbrev pub parent_in : Option LogEntry → Option ℕ
parent_in none = none
parent_in (some entry) = entry.parent

-- The tip of a path, `last().copied().unwrap_or(child)`.
abbrev pub last_or : ℕ → List ℕ → ℕ
last_or child [] = child
last_or child (h ∷ rest) = last_or h rest

-- One of the branches below an entry.
pub record Candidate : Type 0 where
  pub count : ℕ
  pub tip : ℕ
  pub path : List ℕ

-- `(count, Reverse(tip)) > (*best_count, Reverse(*best_tip))`
abbrev pub better : Option Candidate → Candidate → Bool
better none candidate = true
better (some best) candidate =
    ltb best.count candidate.count || (candidate.count == best.count && ltb candidate.tip best.tip)

abbrev pub path_of : Option Candidate → List ℕ
path_of none = []
path_of (some best) = best.path

-- The rest of a way up from an entry, given the way up from its parent.
abbrev pub upwards : (ℕ → List ℕ) → Option ℕ → List ℕ
upwards climb none = []
upwards climb (some parent) = climb parent

abbrev pub seek_on : (ℕ → Bool) → Option ℕ → Bool
seek_on seek none = false
seek_on seek (some parent) = seek parent

module _ (self : GovernanceLog) where
  unfoldable pub gated_at : ℕ → Bool
  unfolding get is_capability_gated
  gated_at h = gated_entry (get h self.entries)

  unfoldable pub parent_of : ℕ → Option ℕ
  unfolding get
  parent_of h = parent_in (get h self.entries)

  unfoldable pub children_of : ℕ → List ℕ
  unfolding get
  children_of node = keys (or_default (get node self.children))

  -- The count of a path's capability-gated entries. (A u32 in the source, which no log of fewer than
  -- 2 ^ 32 entries exceeds.)
  unfoldable pub gated_count : List ℕ → ℕ
  unfolding gated_at
  gated_count path = length (filter gated_at path)

  unfoldable pub candidate : ℕ → List ℕ → Candidate
  unfolding gated_at gated_count
  candidate child sub_path = record {
    count = (if gated_at child then 1 else 0) + gated_count sub_path;
    tip = last_or child sub_path;
    path = child ∷ sub_path;
  }

  -- The loop over the children, given the best branch below each.
  unfoldable pub pick : (ℕ → List ℕ) → List ℕ → Option Candidate → Option Candidate
  unfolding candidate
  pick below [] best = best
  pick below (child ∷ rest) best = pick below rest (
      if better best (candidate child (below child))
      then some (candidate child (below child))
      else best)

  unfoldable pub best_branch : ℕ → ℕ → List ℕ
  unfolding pick children_of
  best_branch zero node = []
  best_branch (suc fuel) node = path_of (pick (best_branch fuel) (children_of node) none)

  unfoldable pub best_branch_below : ℕ → List ℕ
  unfolding best_branch
  best_branch_below node = best_branch (length self.entries) node

  -- The way from an entry up to the root.
  unfoldable pub climb : ℕ → ℕ → List ℕ
  unfolding parent_of
  climb zero h = []
  climb (suc fuel) h = h ∷ upwards (climb fuel) (parent_of h)

  unfoldable pub ancestry : ℕ → List ℕ
  unfolding climb
  ancestry h = rev (climb (suc (length self.entries)) h)

  -- Whether a way up meets `h`.
  unfoldable pub seek : ℕ → ℕ → ℕ → Bool
  unfolding parent_of
  seek zero h current = false
  seek (suc fuel) h current =
      let later = seek_on (seek fuel h) (parent_of current) in if current == h then true else later

  unfoldable pub is_final : ℕ → Bool
  unfolding seek
  is_final h = seek_on (seek (suc (length self.entries)) h) self.finalized

  abbrev pub start_or : Option ℕ → ℕ → ℕ
  start_or none root = root
  start_or (some finalized) root = finalized

  abbrev pub chain_from : Option ℕ → List ℕ
  chain_from none = []
  chain_from (some root) =
      ancestry (start_or self.finalized root) ++ best_branch_below (start_or self.finalized root)

  unfoldable pub canonical_chain : List ℕ
  unfolding ancestry best_branch_below
  canonical_chain = chain_from self.root

  -- `heads`: the keys of a map are in order, so sorting them changes nothing.
  unfoldable pub heads : List ℕ
  unfolding children_of
  heads = filter (λ h. is_empty (children_of h)) (keys self.entries)
