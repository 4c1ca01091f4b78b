-- ===== src/Governance/Log/Linked.antt =====
-- Every entry of a log hangs on its parent, down to one genesis.
use distributed_intranet.Base.{
  ℕ, ◌≡◌, refl, sym, subst, not, true, false, Option, none, some, List, [], ◌∷◌, arith, inl, inr,
}
use distributed_intranet.Base.Tests.{Bool-cases}
use distributed_intranet.Base.Order.{◌=?◌, nat_ord, eq_of_=?}
use distributed_intranet.Map.{get, insert, contains_key}
use distributed_intranet.Map.Laws.{get-insert, get-insert_self}
use distributed_intranet.Crypto.{Crypto}
use distributed_intranet.Governance.Error.{
  Result, ok, guard, ◌>>=◌, >>=-eq-ok, guard-eq-ok, bad_signature, missing_parent,
  unexpected_genesis, unknown_parent,
}
use distributed_intranet.Governance.Entry.{LogEntry, entry_hash, verify_signature}
use distributed_intranet.Governance.State.{Set, in_set}
use distributed_intranet.Governance.State.Mutate.{is_genesis}
use distributed_intranet.Governance.Log.{
  GovernanceLog, empty, or_default, other_root, link, insert_entry,
}

-- An entry stands where it should: as the root, or among the children of an entry of the log.
abbrev pub Hangs : GovernanceLog → ℕ → Option ℕ → Type 0
Hangs self h none = self.root ≡ some h
Hangs self h (some parent) =
    (contains_key parent self.entries ≡ true)
    × (in_set h (or_default (get parent self.children)) ≡ true)

pub record IsLinked (self : GovernanceLog) : Type 0 where
  pub hangs : (h : ℕ) (e : LogEntry) → get h self.entries ≡ some e → Hangs self h e.parent

module _ (self : GovernanceLog) (entry : LogEntry) (hash : ℕ) where
  abbrev pub with_entry : GovernanceLog → GovernanceLog
  with_entry linked = record linked { entries = insert hash entry linked.entries }

  pub still_contained :
      (p : ℕ)
      → contains_key p self.entries ≡ true
      → contains_key p (insert hash entry self.entries) ≡ true
  still_contained p h = let e = get-insert hash p entry self.entries in ground arith

  abbrev pub rooted : GovernanceLog
  rooted = record self { root = some hash }

  abbrev pub siblings : ℕ → Set
  siblings parent = or_default (get parent self.children)

  abbrev pub childed : ℕ → GovernanceLog
  childed parent = record self {
    children = insert parent (insert hash tt (siblings parent)) self.children;
  }

  -- What a link that succeeds has passed, and what it gives.
  pub linked_root :
      (linked : GovernanceLog)
      → link self entry hash none ≡ ok linked
      → (linked ≡ rooted) × (other_root self.root hash ≡ false)
  unfolding link
  linked_root linked l =
      let (u, genesis, l1) = >>=-eq-ok (guard (is_genesis entry.body) missing_parent) _ l in
      let (v, only, l2) =
        >>=-eq-ok (guard (not (other_root self.root hash)) unexpected_genesis) _ l1 in
      let same : not (other_root self.root hash) ≡ true = guard-eq-ok _ unexpected_genesis only in
      (cc, ground arith)

  pub linked_child :
      (parent : ℕ) (linked : GovernanceLog)
      → link self entry hash (some parent) ≡ ok linked
      → (linked ≡ childed parent) × (contains_key parent self.entries ≡ true)
  unfolding link
  linked_child parent linked l =
      let (u, known, l1) =
        >>=-eq-ok (guard (contains_key parent self.entries) (unknown_parent parent)) _ l in
      (cc, guard-eq-ok _ (unknown_parent parent) known)

  -- Where an old entry hung, it still does.
  rooted_keeps :
      (h : ℕ) (o : Option ℕ)
      → other_root self.root hash ≡ false
      → Hangs self h o
      → Hangs (with_entry rooted) h o
  rooted_keeps h none only k = ground arith
  rooted_keeps h (some p) only k = (still_contained p k.0, k.1)

  childed_keeps :
      (parent h : ℕ) (o : Option ℕ) → Hangs self h o → Hangs (with_entry (childed parent)) h o
  childed_keeps parent h none k = k
  childed_keeps parent h (some p) k =
      let outer = get-insert parent p (insert hash tt (siblings parent)) self.children in
      let inner = get-insert hash h tt (siblings parent) in
      (
        still_contained p k.0,
        elim (Bool-cases (parent =? p)) [
          | inl same ↦ (let e = eq_of_=? parent p same in ground arith)
          | inr other ↦ ground arith
        ],
      )

  childed-Hangs :
      (parent : ℕ)
      → contains_key parent self.entries ≡ true
      → Hangs (with_entry (childed parent)) hash (some parent)
  childed-Hangs parent known =
      let outer = get-insert_self parent (insert hash tt (siblings parent)) self.children in
      let inner = get-insert_self hash tt (siblings parent) in
      (still_contained parent known, ground arith)

  -- The log with an entry in it, when all old entries and the new one hang.
  entered-IsLinked :
      (linked : GovernanceLog)
      → linked.entries ≡ self.entries
      → ((h : ℕ) (o : Option ℕ) → Hangs self h o → Hangs (with_entry linked) h o)
      → Hangs (with_entry linked) hash entry.parent
      → IsLinked self
      → IsLinked (with_entry linked)
  entered-IsLinked linked same keeps new old = record {
    hangs = λ h e found.
        let looked = get-insert hash h entry linked.entries in
        elim (Bool-cases (hash =? h)) [
          | inl it ↦
              (let i = eq_of_=? hash h it in
                let first : entry ≡ e = ground arith in
                subst (λ x. Hangs (with_entry linked) x e.parent) i
                  (subst (λ (x : LogEntry). Hangs (with_entry linked) hash x.parent) first new))
          | inr other ↦
              (let before : get h self.entries ≡ some e = ground arith in
                keeps h e.parent (old.hangs h e before))
        ];
  }

  link-IsLinked :
      (parent : Option ℕ) (linked : GovernanceLog)
      → entry.parent ≡ parent
      → link self entry hash parent ≡ ok linked
      → IsLinked self
      → IsLinked (with_entry linked)
  link-IsLinked none linked p l old =
      let (is, only) = linked_root linked l in
      subst (λ x. IsLinked (with_entry x)) (sym is)
        (entered-IsLinked rooted refl (λ h o k. rooted_keeps h o only k) (rw p refl) old)
  link-IsLinked (some parent) linked p l old =
      let (is, known) = linked_child parent linked l in
      subst (λ x. IsLinked (with_entry x)) (sym is)
        (entered-IsLinked (childed parent) refl (λ h o k. childed_keeps parent h o k)
          (subst (λ o. Hangs (with_entry (childed parent)) hash o) (sym p)
            (childed-Hangs parent known))
          old)

insert_entry-IsLinked :
    (crypto : Crypto) (entry : LogEntry) (self next : GovernanceLog)
    → insert_entry crypto entry self ≡ ok next
    → IsLinked self
    → IsLinked next
unfolding insert_entry
insert_entry-IsLinked crypto entry self next h old =
    let (u, signed, h1) = >>=-eq-ok (guard (verify_signature crypto entry) bad_signature) _ h in
    let (linked, hung, h2) =
      >>=-eq-ok (link self entry (entry_hash crypto entry) entry.parent) _ h1 in
    let is : record linked { entries = insert (entry_hash crypto entry) entry linked.entries }
        ≡ next =
      cc in
    subst IsLinked is
      (link-IsLinked self entry (entry_hash crypto entry) entry.parent linked refl hung old)

-- The log after entries that are all inserted.
unfoldable pub insert_all : Crypto → List LogEntry → GovernanceLog → Result GovernanceLog
unfolding insert_entry
insert_all crypto [] self = ok self
insert_all crypto (entry ∷ rest) self =
    insert_entry crypto entry self >>= λ next. insert_all crypto rest next

insert_all_keeps :
    (crypto : Crypto) (entries : List LogEntry) (self next : GovernanceLog)
    → insert_all crypto entries self ≡ ok next
    → IsLinked self
    → IsLinked next
unfolding insert_all
insert_all_keeps crypto [] self next h old = subst IsLinked (cc h) old
insert_all_keeps crypto (entry ∷ rest) self next h old =
    let (middle, inserted, later) = >>=-eq-ok (insert_entry crypto entry self) _ h in
    insert_all_keeps crypto rest middle next later
      (insert_entry-IsLinked crypto entry self middle inserted old)

empty-IsLinked : IsLinked empty
unfolding empty get
empty-IsLinked = record { hangs = λ h e found. cc found }

-- In a log that is built by insertions from the empty one, every entry without a parent is the one
-- root, and every other entry's parent is in the log and lists it among its children.
pub insert_all-IsLinked :
    (crypto : Crypto) (entries : List LogEntry) (log : GovernanceLog)
    → insert_all crypto entries empty ≡ ok log
    → IsLinked log
insert_all-IsLinked crypto entries log h =
    insert_all_keeps crypto entries empty log h empty-IsLinked
