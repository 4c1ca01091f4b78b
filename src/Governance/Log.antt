-- ===== src/Governance/Log.antt =====
-- crates/intranet-governance/src/log.rs: the entries that a node has, linked by their parents.
pub mod Linked
pub mod Fork
pub mod Finality
pub mod Sound
pub mod Branch
pub mod Choice
pub mod Binding
pub mod Growth
pub mod Tests
use distributed_intranet.Base.{ℕ, Bool, true, false, not, Option, none, some, List, [], ◌∷◌}
use distributed_intranet.Base.Tests.{◌==◌, if◌then◌else◌, is_some}
use distributed_intranet.Base.Order.{nat_ord}
use distributed_intranet.Map.{Map, get, insert, contains_key}
use distributed_intranet.Crypto.{Crypto}
use distributed_intranet.Governance.Error.{
  Result, ok, err, guard, ◌>>=◌, ◌>>◌, bad_signature, missing_parent, unexpected_genesis,
  unknown_parent,
}
use distributed_intranet.Governance.Entry.{LogEntry, entry_hash, verify_signature}
use distributed_intranet.Governance.State.{Set}
use distributed_intranet.Governance.State.Mutate.{is_genesis}

pub record GovernanceLog : Type 0 where
  pub entries : Map ℕ LogEntry
  pub children : Map ℕ Set
  pub root : Option ℕ
  pub finalized : Option ℕ

unfoldable pub empty : GovernanceLog
empty = record { entries = []; children = []; root = none; finalized = none }

-- `children.entry(parent).or_default()`
abbrev pub or_default : Option Set → Set
or_default none = []
or_default (some set) = set

-- `self.root.is_some_and(|root| root != hash)`
abbrev pub other_root : Option ℕ → ℕ → Bool
other_root none hash = false
other_root (some root) hash = not (root == hash)

unfoldable pub link : GovernanceLog → LogEntry → ℕ → Option ℕ → Result GovernanceLog
unfolding get insert
link self entry hash none = do
  guard (is_genesis entry.body) missing_parent
  guard (not (other_root self.root hash)) unexpected_genesis
  ok (record self { root = some hash })
link self entry hash (some parent) = do
  guard (contains_key parent self.entries) (unknown_parent parent)
  ok (record self {
    children = insert parent (insert hash tt (or_default (get parent self.children))) self.children;
  })

-- The log's `insert`, without the hash that it also returns.
unfoldable pub insert_entry : Crypto → LogEntry → GovernanceLog → Result GovernanceLog
unfolding link entry_hash verify_signature insert
insert_entry crypto entry self = do
  guard (verify_signature crypto entry) bad_signature
  linked ← link self entry (entry_hash crypto entry) entry.parent
  ok (record linked { entries = insert (entry_hash crypto entry) entry linked.entries })
