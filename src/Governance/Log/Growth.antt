-- ===== src/Governance/Log/Growth.antt =====
-- An insertion without a collision of digests makes no cycle.
use distributed_intranet.Base.{
  ℕ, ◌+◌, ◌≡◌, refl, sym, ap, subst, ◌∙◌, true, ◌⊎◌, Option, none, some, arith, inl, inr,
}
use distributed_intranet.Base.Tests.{◌==◌, if◌then◌else◌, Bool-cases}
use distributed_intranet.Base.Lists.{length, Among}
use distributed_intranet.Base.Order.{◌=?◌, nat_ord, eq_of_=?}
use distributed_intranet.Map.{get, insert, contains_key, keys}
use distributed_intranet.Map.Laws.{get-insert, length-insert}
use distributed_intranet.Map.Keys.{Among-insert}
use distributed_intranet.Crypto.{Crypto}
use distributed_intranet.Governance.Error.{ok, guard, >>=-eq-ok, bad_signature}
use distributed_intranet.Governance.Entry.{LogEntry, entry_hash, verify_signature}
use distributed_intranet.Governance.Log.{GovernanceLog, empty, or_default, link, insert_entry}
use distributed_intranet.Governance.Log.Linked.{
  with_entry, rooted, siblings, childed, linked_root, linked_child,
}
use distributed_intranet.Governance.Log.Fork.{parent_of, children_of}
use distributed_intranet.Governance.Log.Sound.{IsSound, parent_of-contains}

module _ (self : GovernanceLog) (entry : LogEntry) (hash : ℕ) where
  -- No other entry of the log has the new one's digest.
  abbrev pub NoCollision : Type 0
  NoCollision = (get hash self.entries ≡ none) ⊎ (get hash self.entries ≡ some entry)

  module _ (linked : GovernanceLog) (same : linked.entries ≡ self.entries) where
    abbrev next : GovernanceLog
    next = with_entry self entry hash linked

    parent_after :
        (h : ℕ) → parent_of next h ≡ (if hash =? h then entry.parent else parent_of self h)
    unfolding parent_of
    parent_after h =
        (let g = get-insert hash h entry linked.entries in
          elim (Bool-cases (hash =? h)) [ inl it ↦ ground arith | inr other ↦ ground arith ])

    contains_after :
        (h : ℕ)
        → contains_key h next.entries ≡ (if hash =? h then true else contains_key h self.entries)
    contains_after h = (let g = get-insert hash h entry linked.entries in ground arith)

    length_after :
        length next.entries
        ≡ (if contains_key hash self.entries then length self.entries else length self.entries + 1)
    length_after = (let l = length-insert hash entry linked.entries in ground arith)

    parent_held : get hash self.entries ≡ some entry → parent_of self hash ≡ entry.parent
    unfolding parent_of
    parent_held held = rw (parent_of, held) refl

    parents_kept :
        get hash self.entries ≡ some entry → (h : ℕ) → parent_of next h ≡ parent_of self h
    parents_kept held h = elim (Bool-cases (hash =? h)) [
      | inl it ↦
          (let e = eq_of_=? hash h it in
            parent_after h ∙ rw it (sym (parent_held held) ∙ ap (parent_of self) e))
      | inr other ↦ parent_after h ∙ rw other refl
    ]

    module _ (known : (p : ℕ) → entry.parent ≡ some p → contains_key p self.entries ≡ true)
        (kids : (p c : ℕ)
          → Among c (children_of next p)
          → Among c (children_of self p) ⊎ ((c ≡ hash) × (entry.parent ≡ some p)))
        (sound : IsSound self) where
      linked_after :
          ((c p : ℕ) → parent_of self c ≡ some p → parent_of next c ≡ some p)
          → (p c : ℕ) → Among c (children_of next p)
          → parent_of next c ≡ some p
      linked_after keeps p c m = elim (kids p c m) [
        | inl old ↦ keeps c p (sound.linked p c old)
        | inr it ↦ (let is = it.0 in let has = it.1 in let after = parent_after c in ground arith)
      ]

      fresh-IsSound : get hash self.entries ≡ none → IsSound next
      fresh-IsSound fresh = record {
        rank = λ h. if h == hash then length self.entries else sound.rank h;
        falls = λ h p e.
            let a = parent_after h in
            let b = parent_after p in
            ground (arith, sound.falls h p, sound.bounded p, sound.closed h p, known p);
        closed = λ h p e.
            let a = parent_after h in
            let c = contains_after p in ground (arith, sound.closed h p, known p);
        bounded = λ h e.
            let c = contains_after h in let l = length_after in ground (arith, sound.bounded h);
        linked = linked_after (λ c p e.
            (let a = parent_after c in let held = parent_of-contains self c p e in ground arith));
      }

      held-IsSound : get hash self.entries ≡ some entry → IsSound next
      held-IsSound held = record {
        rank = sound.rank;
        falls = λ h p e. sound.falls h p (sym (parents_kept held h) ∙ e);
        closed = λ h p e.
            let c = contains_after p in
            let old = sound.closed h p (sym (parents_kept held h) ∙ e) in ground arith;
        bounded = λ h e.
            let c = contains_after h in let l = length_after in ground (arith, sound.bounded h);
        linked = linked_after (λ c p e. parents_kept held c ∙ e);
      }

      entered-IsSound : NoCollision → IsSound next
      entered-IsSound (inl fresh) = fresh-IsSound fresh
      entered-IsSound (inr held) = held-IsSound held

  rooted_kids :
      (p c : ℕ)
      → Among c (children_of (with_entry self entry hash (rooted self entry hash)) p)
      → Among c (children_of self p)
  unfolding children_of
  rooted_kids p c m = m

  childed_kids :
      (parent p c : ℕ)
      → Among c (children_of (with_entry self entry hash (childed self entry hash parent)) p)
      → Among c (children_of self p) ⊎ ((c ≡ hash) × (parent ≡ p))
  unfolding children_of
  childed_kids parent p c m =
      let children =
        insert parent (insert hash tt (siblings self entry hash parent)) self.children in
      let g =
        get-insert parent p (insert hash tt (siblings self entry hash parent)) self.children in
      elim (Bool-cases (parent =? p)) [
        | inl is ↦
            (let e = eq_of_=? parent p is in
              let there : get p children ≡ some (insert hash tt (siblings self entry hash parent)) =
                ground arith in
              elim (Among-insert hash tt c (siblings self entry hash parent) (rw there at m)) [
                | inl new ↦ inr (new, e)
                | inr old ↦
                    inl (subst (λ q. Among c (keys (or_default (get q self.children)))) e old)
              ])
        | inr other ↦
            (let there : get p children ≡ get p self.children = ground arith in
              inl (subst (λ o. Among c (keys (or_default o))) there m))
      ]

  link-IsSound :
      (parent : Option ℕ) (linked : GovernanceLog)
      → entry.parent ≡ parent
      → link self entry hash parent ≡ ok linked
      → IsSound self
      → NoCollision
      → IsSound (with_entry self entry hash linked)
  link-IsSound none linked p l old new =
      let (is, only) = linked_root self entry hash linked l in
      subst (λ x. IsSound (with_entry self entry hash x)) (sym is)
        (entered-IsSound (rooted self entry hash) refl (λ q e. cc)
          (λ q c m. inl (rooted_kids q c m)) old new)
  link-IsSound (some parent) linked p l old new =
      let (is, known) = linked_child self entry hash parent linked l in
      subst (λ x. IsSound (with_entry self entry hash x)) (sym is)
        (entered-IsSound (childed self entry hash parent) refl
          (λ q e.
            (let same : parent ≡ q = cc in
              subst (λ r. contains_key r self.entries ≡ true) same known))
          (λ q c m. elim (childed_kids parent q c m) [
            | inl before ↦ inl before
            | inr it ↦ inr (it.0, p ∙ ap (λ r. some r) it.1)
          ])
          old new)

-- A log without cycles has none after an insertion that succeeds, unless another entry of it has the
-- new one's digest.
pub insert_entry-IsSound :
    (crypto : Crypto) (entry : LogEntry) (self next : GovernanceLog)
    → insert_entry crypto entry self ≡ ok next
    → NoCollision self entry (entry_hash crypto entry)
    → IsSound self
    → IsSound next
unfolding insert_entry
insert_entry-IsSound crypto entry self next h new old =
    let (u, signed, h1) = >>=-eq-ok (guard (verify_signature crypto entry) bad_signature) _ h in
    let (linked, hung, h2) =
      >>=-eq-ok (link self entry (entry_hash crypto entry) entry.parent) _ h1 in
    let is : record linked { entries = insert (entry_hash crypto entry) entry linked.entries }
        ≡ next =
      cc in
    subst IsSound is
      (link-IsSound self entry (entry_hash crypto entry) entry.parent linked refl hung old new)

pub empty-IsSound : IsSound empty
unfolding empty parent_of children_of get
empty-IsSound = record {
  rank = λ h. h;
  falls = λ h p e. cc;
  closed = λ h p e. cc;
  bounded = λ h e. cc;
  linked = λ p c m. elim m [ ];
}
