-- ===== src/Governance/Log/Finality.antt =====
-- crates/intranet-governance/src/log.rs: `advance_finality` and `reconcile`.
use distributed_intranet.Base.{
  ℕ, zero, suc, ◌+◌, Bool, true, false, not, Option, none, some, List, [], ◌∷◌,
}
use distributed_intranet.Base.Tests.{leb, ◌==◌, if◌then◌else◌}
use distributed_intranet.Base.Lists.{any}
use distributed_intranet.Base.Order.{nat_ord}
use distributed_intranet.Base.Text.{Text, bytes_of}
use distributed_intranet.Map.{Map, get}
use distributed_intranet.Crypto.{Crypto}
use distributed_intranet.Crypto.Time.{Timestamp, millis_since}
use distributed_intranet.Governance.Policy.{FinalityParams, is_final}
use distributed_intranet.Governance.Error.{Result, ok, err}
use distributed_intranet.Governance.Entry.{
  EntryBody, genesis, define_group, membership_change, policy_change, content_type_policy,
  epoch_rotation, vote_proposed, vote_outcome, device_enrollment, device_revocation, moderation,
  app_name_registration, app_entry, add, remove, LogEntry,
}
use distributed_intranet.Governance.State.{GovernanceState}
use distributed_intranet.Governance.State.Mutate.{replay}
use distributed_intranet.Governance.Log.{GovernanceLog}
use distributed_intranet.Governance.Log.Fork.{gated_count, canonical_chain}

abbrev pub one_later : Option ℕ → Option ℕ
one_later none = none
one_later (some i) = some (suc i)

-- `iter().position(|entry| *entry == h)`
abbrev pub position : ℕ → List ℕ → Option ℕ
position h [] = none
position h (x ∷ xs) = let later = one_later (position h xs) in if x == h then some 0 else later

-- `get(index).copied()`
abbrev pub at_index : List ℕ → ℕ → Option ℕ
at_index [] i = none
at_index (x ∷ xs) zero = some x
at_index (x ∷ xs) (suc i) = at_index xs i

-- `filter_map(|hash| self.entries.get(hash))`
abbrev pub entries_of : Map ℕ LogEntry → List ℕ → List LogEntry
unfolding get
entries_of entries [] = []
entries_of entries (h ∷ rest) = elim (get h entries) [
  | none ↦ entries_of entries rest
  | some entry ↦ entry ∷ entries_of entries rest
]

unfoldable pub kind : EntryBody → Text
kind (genesis _ _ _) = bytes_of "genesis"
kind (define_group _ _) = bytes_of "define-group"
kind (membership_change _ _ (add _)) = bytes_of "membership-add"
kind (membership_change _ _ (remove _)) = bytes_of "membership-remove"
kind (policy_change _) = bytes_of "policy-change"
kind (content_type_policy _) = bytes_of "content-type-policy"
kind (epoch_rotation _ _) = bytes_of "epoch-rotation"
kind (vote_proposed _) = bytes_of "vote-proposed"
kind (vote_outcome _) = bytes_of "vote-outcome"
kind (device_enrollment _) = bytes_of "device-enrollment"
kind (device_revocation _) = bytes_of "device-revocation"
kind (moderation _) = bytes_of "moderation"
kind (app_name_registration _ _) = bytes_of "app-name-registration"
kind (app_entry _ _ _ _) = bytes_of "app-entry"

unfoldable pub security_relevant : EntryBody → Bool
security_relevant (membership_change _ _ (remove _)) = true
security_relevant (moderation _) = true
security_relevant (epoch_rotation _ _) = true
security_relevant _ = false

pub record VoidedEntry : Type 0 where
  pub hash : ℕ
  pub author : ℕ
  pub timestamp : Timestamp
  pub kind : Text
  pub security_relevant : Bool

pub record Reconciliation : Type 0 where
  pub canonical : List ℕ
  pub voided : List VoidedEntry
  pub finalized : Option ℕ

unfoldable pub void_entry : ℕ → LogEntry → VoidedEntry
unfolding kind security_relevant
void_entry hash entry = record {
  hash = hash;
  author = entry.author;
  timestamp = entry.timestamp;
  kind = kind entry.body;
  security_relevant = security_relevant entry.body;
}

-- The entries of the log that are not on the canonical chain.
unfoldable pub voided_of : List ℕ → Map ℕ LogEntry → List VoidedEntry
unfolding void_entry
voided_of canonical [] = []
voided_of canonical ((hash, entry) ∷ rest) =
    let others = voided_of canonical rest in
    if not (any (λ h. h == hash) canonical) then void_entry hash entry ∷ others else others

abbrev pub mark : (LogEntry → Bool) → ℕ → Option ℕ → Option LogEntry → Option ℕ
mark test index best none = best
mark test index best (some entry) = if test entry then some index else best

-- Whether an entry is final, with these later on the canonical chain.
unfoldable pub is_final_below :
    GovernanceLog → FinalityParams → Timestamp → List ℕ → LogEntry → Bool
unfolding gated_count millis_since is_final
is_final_below self params now later entry =
    is_final params (gated_count self later) (millis_since now entry.timestamp)

-- The last index that is final: the loop over the canonical chain.
unfoldable pub newly_final :
    GovernanceLog → FinalityParams → Timestamp → List ℕ → ℕ → Option ℕ → Option ℕ
unfolding get is_final_below
newly_final self params now [] index best = best
newly_final self params now (h ∷ later) index best =
    newly_final self params now later (index + 1)
      (mark (is_final_below self params now later) index best (get h self.entries))

-- The match on `(already, newly_final)`: `none` is a `return`.
unfoldable pub target : Option ℕ → Option ℕ → Option ℕ
target already none = none
target none (some candidate) = some candidate
target (some current) (some candidate) = if leb candidate current then none else some candidate

abbrev pub position_in : Option ℕ → List ℕ → Option ℕ
position_in none canonical = none
position_in (some h) canonical = position h canonical

abbrev pub move_to : GovernanceLog → List ℕ → Option ℕ → GovernanceLog
move_to self canonical none = self
move_to self canonical (some i) = record self { finalized = at_index canonical i }

abbrev pub advance_with :
    GovernanceLog → List ℕ → Timestamp → Result GovernanceState → GovernanceLog
advance_with self canonical now (err _) = self
advance_with self canonical now (ok state) = move_to self canonical (
    target (position_in self.finalized canonical)
      (newly_final self state.policy.finality now canonical 0 none))

module _ (crypto : Crypto) where
  unfoldable pub replay_canonical : GovernanceLog → Result GovernanceState
  unfolding replay canonical_chain
  replay_canonical self = replay crypto (entries_of self.entries (canonical_chain self))

  unfoldable pub advance_finality : List ℕ → Timestamp → GovernanceLog → GovernanceLog
  unfolding replay_canonical newly_final target
  advance_finality canonical now self = advance_with self canonical now (replay_canonical self)

  abbrev pub report : GovernanceLog → List ℕ → Reconciliation
  report self canonical = record {
    canonical = canonical;
    voided = voided_of canonical self.entries;
    finalized = self.finalized;
  }

  abbrev pub reconcile_from : Option ℕ → Timestamp → GovernanceLog → GovernanceLog × Reconciliation
  reconcile_from none now self = (self, record { canonical = []; voided = []; finalized = none })
  reconcile_from (some _) now self =
      let canonical = canonical_chain self in
      let advanced = advance_finality canonical now self in (advanced, report advanced canonical)

  unfoldable pub reconcile : Timestamp → GovernanceLog → GovernanceLog × Reconciliation
  unfolding canonical_chain advance_finality voided_of
  reconcile now self = reconcile_from self.root now self
