-- ===== src/Governance/State/Cascade/Exact.antt =====
-- A cascade removes exactly the memberships that the removed identity stands behind.
use distributed_intranet.Base.{
  ℕ, zero, suc, ◌+◌, ◌≤◌, ◌≡◌, refl, subst, ◌↔◌, Bool, true, false, not, Option, some, List, [],
  ◌∷◌, ◌++◌, arith, inl, inr,
}
use distributed_intranet.Base.Tests.{Bool-cases}
use distributed_intranet.Base.Lists.{
  length, length-append, length-rev, rev, Among, here, there, Among-cons, Among-nil, Among-append,
  Among-append_left, Among-append_right, Among-rev, Among-of_rev,
}
use distributed_intranet.Map.{Map, keys, retain}
use distributed_intranet.Map.Entries.{
  length-keys, length-parts, Among-keys, Among-of_keys, Among-retain, Among-of_retain,
}
use distributed_intranet.Crypto.Time.{Timestamp}
use distributed_intranet.Governance.Group.{MembershipRecord}
use distributed_intranet.Governance.Entry.{Cascade}
use distributed_intranet.Governance.State.Cascade.{
  is_doomed, cascade_loop, cascade_members, cutoff_of,
}

-- A chain of additions, each recent enough, from one of the `pending` identities to a membership.
pub data Reaches (cutoff : Option Timestamp) (pending : List ℕ) (members : Map ℕ MembershipRecord)
    : ℕ → MembershipRecord → Type 0 where
  start :
      {p x : ℕ} {r : MembershipRecord}
      → Among p pending
      → Among (x, r) members
      → is_doomed cutoff p r ≡ true
      → Reaches cutoff pending members x r
  next :
      {y x : ℕ} {q r : MembershipRecord}
      → Reaches cutoff pending members y q
      → Among (x, r) members
      → is_doomed cutoff y r ≡ true
      → Reaches cutoff pending members x r

Reaches-Among :
    {cutoff : Option Timestamp} {pending : List ℕ} {members : Map ℕ MembershipRecord} {x : ℕ}
    {r : MembershipRecord}
    → Reaches cutoff pending members x r
    → Among (x, r) members
Reaches-Among (start m a d) = a
Reaches-Among (next sub a d) = a

Reaches-nil :
    {cutoff : Option Timestamp} {members : Map ℕ MembershipRecord} {x : ℕ} {r : MembershipRecord}
    → ¬ Reaches cutoff [] members x r
Reaches-nil (start m a d) = Among-nil m
Reaches-nil (next sub a d) = Reaches-nil sub

module _ (cutoff : Option Timestamp) (p : ℕ) (rest : List ℕ)
    (members : Map ℕ MembershipRecord) where
  abbrev doomed : Map ℕ MembershipRecord
  doomed = retain (λ _ r. is_doomed cutoff p r) members

  abbrev left : Map ℕ MembershipRecord
  left = retain (λ _ r. not (is_doomed cutoff p r)) members

  abbrev pending_next : List ℕ
  pending_next = rev (keys doomed) ++ rest

  of_pending_next :
      {q x : ℕ} {r : MembershipRecord}
      → Among q pending_next
      → Among (x, r) members
      → is_doomed cutoff q r ≡ true
      → Reaches cutoff (p ∷ rest) members x r
  of_pending_next {q} m a d = elim (Among-append (rev (keys doomed)) m) [
    | inr waiting ↦ start (there waiting) a d
    | inl added ↦
        let (q_member, found) = Among-of_keys doomed (Among-of_rev (keys doomed) added) in
        let (known, by_p) = Among-of_retain (λ _ r. is_doomed cutoff p r) members found in
        next (start here known by_p) a d
  ]

  down :
      {x : ℕ} {r : MembershipRecord}
      → Reaches cutoff pending_next left x r
      → Reaches cutoff (p ∷ rest) members x r
  down (start m a d) = of_pending_next m (Among-of_retain _ members a).0 d
  down (next sub a d) = next (down sub) (Among-of_retain _ members a).0 d

  kept :
      {x : ℕ} {r : MembershipRecord}
      → Among (x, r) members
      → is_doomed cutoff p r ≡ false
      → Among (x, r) left
  kept a h = Among-retain (λ _ r. not (is_doomed cutoff p r)) a (rw h refl)

  up :
      {x : ℕ} {r : MembershipRecord}
      → Reaches cutoff (p ∷ rest) members x r
      → is_doomed cutoff p r ≡ false
      → Reaches cutoff pending_next left x r
  up (start {r = r} m a d) h = elim (Among-cons m) [
    | inl same ↦ cc (subst (λ i. is_doomed cutoff i r ≡ true) same d)
    | inr waiting ↦ start (Among-append_right (rev (keys doomed)) waiting) (kept a h) d
  ]
  up (next {y = y} {q = q} sub a d) h = elim (Bool-cases (is_doomed cutoff p q)) [
    | inl by_p ↦
        start
          (Among-append_left rest (
            Among-rev
              (Among-keys (Among-retain (λ _ r. is_doomed cutoff p r) (Reaches-Among sub) by_p))))
          (kept a h) d
    | inr clear ↦ next (up sub clear) (kept a h) d
  ]

  -- One round takes at least one identity off the work that is left.
  round_shrinks : length pending_next + length left ≡ length rest + length members
  round_shrinks = omega (
    arith,
    length-append (rev (keys doomed)) rest,
    length-rev (keys doomed),
    length-keys doomed,
    length-parts (λ _ r. is_doomed cutoff p r) members,
  )

not-true : (b : Bool) → not b ≡ true → b ≡ false
not-true b h = ground arith

-- With fuel for the pending identities and the members, the loop keeps a membership exactly if no
-- chain of additions leads to it from a pending identity.
pub cascade_loop_exact :
    (cutoff : Option Timestamp) (fuel : ℕ) (pending : List ℕ) (members : Map ℕ MembershipRecord)
    → length pending + length members ≤ fuel
    → (x : ℕ) (r : MembershipRecord)
    → Among (x, r) (cascade_loop fuel cutoff pending members)
      ↔ (Among (x, r) members × ¬ Reaches cutoff pending members x r)
unfolding cascade_loop
cascade_loop_exact cutoff zero [] members h x r = (λ a. (a, Reaches-nil), λ k. k.0)
cascade_loop_exact cutoff zero (p ∷ rest) members h x r = absurd (omega arith)
cascade_loop_exact cutoff (suc fuel) [] members h x r = (λ a. (a, Reaches-nil), λ k. k.0)
cascade_loop_exact cutoff (suc fuel) (p ∷ rest) members h x r =
    let ih =
      cascade_loop_exact cutoff fuel (pending_next cutoff p rest members)
        (left cutoff p rest members) (omega (arith, round_shrinks cutoff p rest members)) x r in
    (
      λ a.
          let (in_left, unreached) = ih.0 a in
          let (known, clear) = Among-of_retain _ members in_left in
          (known, λ reach. unreached (up cutoff p rest members reach (not-true _ clear))),
      λ k. elim (Bool-cases (is_doomed cutoff p r)) [
        | inl by_p ↦ absurd (k.1 (start here k.0 by_p))
        | inr clear ↦
            ih.1 (
              kept cutoff p rest members k.0 clear,
              λ reach. k.1 (down cutoff p rest members reach),
            )
      ],
    )

-- After a cascading removal a group keeps exactly those other members that no chain of recent
-- enough additions leads to from the removed identity.
pub cascade_members_exact :
    (cascade : Cascade) (identity : ℕ) (removed_at : Timestamp) (members : Map ℕ MembershipRecord)
    (x : ℕ) (r : MembershipRecord)
    → Among (x, r) (cascade_members (some cascade) identity removed_at members) ↔ (
        Among (x, r) members
        × ¬ Reaches (cutoff_of cascade.window_millis removed_at) (identity ∷ []) members x r)
unfolding cascade_members
cascade_members_exact cascade identity removed_at members x r =
    cascade_loop_exact _ (length members + 1) (identity ∷ []) members (omega arith) x r
