-- ===== src/Governance/Log/Branch.antt =====
-- The branch that fork choice takes below an entry.
use distributed_intranet.Base.{
  ℕ, zero, suc, ◌≤◌, ◌≡◌, Option, none, some, List, [], ◌∷◌, arith, inl, inr,
}
use distributed_intranet.Base.Tests.{if◌then◌else◌, Bool-cases}
use distributed_intranet.Base.Lists.{Among, here, there, Among-nil}
use distributed_intranet.Governance.Log.{GovernanceLog}
use distributed_intranet.Governance.Log.Fork.{
  children_of, Candidate, candidate, better, path_of, pick, best_branch,
}
use distributed_intranet.Governance.Log.Sound.{IsSound, FollowsFrom}

-- A branch below an entry, down to an entry without children.
pub data Branch (self : GovernanceLog) : ℕ → List ℕ → Type 0 where
  leaf : {node : ℕ} → children_of self node ≡ [] → Branch self node []
  step :
      {node c : ℕ} {path : List ℕ}
      → Among c (children_of self node)
      → Branch self c path
      → Branch self node (c ∷ path)

-- More capability-gated entries, or as many and no higher tip.
abbrev pub AtLeast : ℕ → ℕ → ℕ → ℕ → Type 0
AtLeast count tip c t = (c ≤ count) × (c ≡ count → tip ≤ t)

module _ (self : GovernanceLog) where
  -- What a choice made so far is worth: nothing chosen is beaten by all.
  abbrev pub Chosen : Option Candidate → ℕ → ℕ → Type 0
  Chosen none c t = ⊥
  Chosen (some best) c t = AtLeast best.count best.tip c t

  pub AtLeast-trans : (a s b t c u : ℕ) → AtLeast a s b t → AtLeast b t c u → AtLeast a s c u
  AtLeast-trans a s b t c u l m =
      let p = l.0 in
      let q = m.0 in
      (omega arith, λ e. (let r = l.1 (omega arith) in let w = m.1 (omega arith) in omega arith))

  pub AtLeast-refl : (a s : ℕ) → AtLeast a s a s
  AtLeast-refl a s = (omega arith, λ e. omega arith)

  abbrev kept : Option Candidate → Candidate → Option Candidate
  kept best c = if better best c then some c else best

  -- The loop keeps the better of the two.
  kept-new : (best : Option Candidate) (c : Candidate) → Chosen (kept best c) c.count c.tip
  kept-new none c = AtLeast-refl c.count c.tip
  kept-new (some best) c = elim (Bool-cases (better (some best) c)) [
    | inl is_better ↦ rw is_better (AtLeast-refl c.count c.tip)
    | inr not_better ↦ rw not_better (ground arith, λ e. ground arith)
  ]

  kept-old :
      (best : Option Candidate) (c : Candidate) (n t : ℕ)
      → Chosen best n t
      → Chosen (kept best c) n t
  kept-old none c n t h = absurd h
  kept-old (some best) c n t h = elim (Bool-cases (better (some best) c)) [
    | inl is_better ↦
        rw is_better
          (AtLeast-trans c.count c.tip best.count best.tip n t (ground arith, λ e. ground arith) h)
    | inr not_better ↦ rw not_better h
  ]

  module _ (below : ℕ → List ℕ) where
    abbrev pub of_child : ℕ → Candidate
    of_child c = candidate self c (below c)

    pick-old :
        (children : List ℕ) (best : Option Candidate) (n t : ℕ)
        → Chosen best n t
        → Chosen (pick self below children best) n t
    unfolding pick
    pick-old [] best n t h = h
    pick-old (c ∷ rest) best n t h =
        pick-old rest (kept best (of_child c)) n t (kept-old best (of_child c) n t h)

    -- The choice is at least as good as the candidate of every child.
    pub pick-each :
        (children : List ℕ) (best : Option Candidate) {c : ℕ}
        → Among c children
        → Chosen (pick self below children best) (of_child c).count (of_child c).tip
    unfolding pick
    pick-each [] best m = absurd (Among-nil m)
    pick-each (c ∷ rest) best here =
        pick-old rest (kept best (of_child c)) (of_child c).count (of_child c).tip
          (kept-new best (of_child c))
    pick-each (d ∷ rest) best (there m) = pick-each rest (kept best (of_child d)) m

    -- Whatever holds of every child's candidate holds of the choice.
    abbrev pub Holds : (Candidate → Type 0) → Option Candidate → Type 0
    Holds P none = Unit
    Holds P (some best) = P best

    kept-Holds :
        (P : Candidate → Type 0) (best : Option Candidate) (c : Candidate)
        → Holds P best
        → P c
        → Holds P (kept best c)
    kept-Holds P best c h p = elim (Bool-cases (better best c)) [
      | inl is_better ↦ rw is_better p
      | inr not_better ↦ rw not_better h
    ]

    pub pick-Holds :
        (P : Candidate → Type 0) (children : List ℕ) (best : Option Candidate)
        → Holds P best
        → ((c : ℕ) → Among c children → P (of_child c))
        → Holds P (pick self below children best)
    unfolding pick
    pick-Holds P [] best h each = h
    pick-Holds P (c ∷ rest) best h each =
        pick-Holds P rest (kept best (of_child c)) (kept-Holds P best (of_child c) h (each c here))
          (λ d m. each d (there m))

  module _ (sound : IsSound self) where
    chosen-FollowsFrom :
        (node : ℕ) (best : Option Candidate)
        → Holds (λ _. []) (λ c. FollowsFrom self node c.path) best
        → FollowsFrom self node (path_of best)
    chosen-FollowsFrom node none h = tt
    chosen-FollowsFrom node (some best) h = h

    -- The branch chosen hangs on the entry, parent by parent.
    pub best_branch-FollowsFrom :
        (fuel node : ℕ) → FollowsFrom self node (best_branch self fuel node)
    unfolding best_branch candidate
    best_branch-FollowsFrom zero node = tt
    best_branch-FollowsFrom (suc fuel) node =
        chosen-FollowsFrom node (pick self (best_branch self fuel) (children_of self node) none) (
          pick-Holds (best_branch self fuel) (λ c. FollowsFrom self node c.path)
            (children_of self node) none tt
            (λ c m. (sound.linked node c m, best_branch-FollowsFrom fuel c)))
