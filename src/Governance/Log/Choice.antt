-- ===== src/Governance/Log/Choice.antt =====
-- Fork choice takes the best of all the branches, whatever their number and depth.
use distributed_intranet.Base.{
  ℕ, zero, suc, ◌+◌, ◌<◌, ◌≤◌, ◌≡◌, refl, sym, subst, Option, none, some, List, [], ◌∷◌, arith,
}
use distributed_intranet.Base.Lists.{length, Among, here}
use distributed_intranet.Governance.Log.{GovernanceLog}
use distributed_intranet.Governance.Log.Fork.{
  parent_of, children_of, gated_count, Candidate, candidate, last_or, path_of, pick, best_branch,
  best_branch_below,
}
use distributed_intranet.Governance.Log.Sound.{IsSound, rank_below}
use distributed_intranet.Governance.Log.Branch.{
  Branch, leaf, step, AtLeast, AtLeast-trans, AtLeast-refl, Chosen, pick-each, of_child, Holds,
  pick-Holds,
}

module _ (self : GovernanceLog) where
  -- A branch is worth its capability-gated entries, then its tip.
  abbrev pub Outweighs : ℕ → List ℕ → List ℕ → Type 0
  Outweighs node p q =
      AtLeast (gated_count self p) (last_or node p) (gated_count self q) (last_or node q)

  abbrev IsWeighed : ℕ → Candidate → Type 0
  IsWeighed node c = (c.count ≡ gated_count self c.path) × (c.tip ≡ last_or node c.path)

  candidate-IsWeighed : (node c : ℕ) (sub : List ℕ) → IsWeighed node (candidate self c sub)
  unfolding candidate gated_count
  candidate-IsWeighed node c sub = (ground arith, refl)

  choice_weighs :
      (node : ℕ) (best : Option Candidate) (below : ℕ → List ℕ) (n t : ℕ)
      → Holds self below (IsWeighed node) best
      → Chosen self best n t
      → AtLeast (gated_count self (path_of best)) (last_or node (path_of best)) n t
  choice_weighs node none below n t h c = absurd c
  choice_weighs node (some best) below n t h c =
      subst (λ m. AtLeast m (last_or node best.path) n t) h.0
        (subst (λ m. AtLeast best.count m n t) h.1 c)

  best_branch-Outweighs :
      (fuel node : ℕ) (q : List ℕ)
      → Branch self node q
      → length q ≤ fuel
      → Outweighs node (best_branch self fuel node) q
  unfolding best_branch pick candidate
  best_branch-Outweighs zero node [] b l = AtLeast-refl self (gated_count self []) node
  best_branch-Outweighs zero node (c ∷ q) b l = absurd (omega arith)
  best_branch-Outweighs (suc fuel) node _ (leaf e) l =
      subst
        (λ children. Outweighs node (path_of (pick self (best_branch self fuel) children none)) [])
        (sym e) (AtLeast-refl self (gated_count self []) node)
  best_branch-Outweighs (suc fuel) node (c ∷ q) (step m b) l =
      let one = candidate-IsWeighed node c q in
      let below = best_branch self fuel in
      let choice = pick self below (children_of self node) none in
      let ih = best_branch-Outweighs fuel c q b (omega arith) in
      let weighed =
        pick-Holds self below (IsWeighed node) (children_of self node) none tt
          (λ d k. candidate-IsWeighed node d (below d)) in
      let better =
        choice_weighs node choice below (of_child self below c).count (of_child self below c).tip
          weighed (pick-each self below (children_of self node) none m) in
      AtLeast-trans self (gated_count self (path_of choice)) (last_or node (path_of choice))
        (of_child self below c).count (of_child self below c).tip (gated_count self (c ∷ q))
        (last_or c q) better (omega (arith, ih.0, one.0), λ same. ih.1 (omega (arith, one.0)))

  module _ (sound : IsSound self) where
    branch_below_parent :
        (node p : ℕ) (q : List ℕ)
        → Branch self node q
        → parent_of self node ≡ some p
        → sound.rank node + length q < length self.entries
    branch_below_parent node p _ (leaf e) h = omega (arith, rank_below self sound node p h)
    branch_below_parent node p (c ∷ q) (step m b) h = omega (
      arith,
      sound.falls c node (sound.linked node c m),
      branch_below_parent c node q b (sound.linked node c m),
    )

    branch_within : (node : ℕ) (q : List ℕ) → Branch self node q → length q ≤ length self.entries
    branch_within node _ (leaf e) = omega arith
    branch_within node (c ∷ q) (step m b) =
        omega (arith, branch_below_parent c node q b (sound.linked node c m))

    chosen-Branch :
        (node : ℕ) (below : ℕ → List ℕ) (children : List ℕ) (best : Option Candidate)
        → children_of self node ≡ children
        → Holds self below (λ d. Branch self node d.path) best
        → ((c : ℕ)
            → Among c children
            → Chosen self best (of_child self below c).count (of_child self below c).tip)
        → Branch self node (path_of best)
    chosen-Branch node below [] none e h some_for = leaf e
    chosen-Branch node below (c ∷ _) none e h some_for = absurd (some_for c here)
    chosen-Branch node below _ (some best) e h some_for = h

    picked-Branch :
        (node : ℕ) (below : ℕ → List ℕ)
        → ((c : ℕ) → Among c (children_of self node) → Branch self c (below c))
        → Branch self node (path_of (pick self below (children_of self node) none))
    unfolding candidate
    picked-Branch node below each =
        chosen-Branch node below (children_of self node)
          (pick self below (children_of self node) none) refl
          (pick-Holds self below (λ d. Branch self node d.path) (children_of self node) none tt
            (λ c m. step m (each c m)))
          (λ c m. pick-each self below (children_of self node) none m)

    best_branch-Branch :
        (fuel node p : ℕ)
        → parent_of self node ≡ some p
        → length self.entries ≤ sound.rank node + fuel
        → Branch self node (best_branch self fuel node)
    unfolding best_branch
    best_branch-Branch zero node p h enough = absurd (omega (arith, rank_below self sound node p h))
    best_branch-Branch (suc fuel) node p h enough =
        picked-Branch node (best_branch self fuel) (λ c m.
          (let l = sound.linked node c m in
            best_branch-Branch fuel c node l (omega (arith, sound.falls c node l))))

    branch_from_any :
        (fuel node : ℕ) → length self.entries ≤ fuel → Branch self node (best_branch self fuel node)
    unfolding best_branch
    branch_from_any zero node enough = no_children (children_of self node) refl
      where
        no_children : (children : List ℕ) → children_of self node ≡ children → Branch self node []
        no_children [] e = leaf e
        no_children (c ∷ rest) e =
            let l = sound.linked node c (subst (λ k. Among c k) (sym e) here) in
            absurd (omega (arith, rank_below self sound c node l))
    branch_from_any (suc fuel) node enough = picked-Branch node (best_branch self fuel) (λ c m.
        (let l = sound.linked node c m in
          best_branch-Branch fuel c node l (omega (arith, sound.falls c node l))))

    -- In a log without cycles, fork choice takes a whole branch below an entry, down to one without
    -- children.
    pub best_branch_below-Branch : (node : ℕ) → Branch self node (best_branch_below self node)
    unfolding best_branch_below
    best_branch_below-Branch node = branch_from_any (length self.entries) node (omega arith)

    -- In a log without cycles, no branch below an entry has more capability-gated entries than the one
    -- that fork choice takes there, or as many and a lower tip.
    pub best_branch_below-Outweighs :
        (node : ℕ) (q : List ℕ)
        → Branch self node q
        → Outweighs node (best_branch_below self node) q
    unfolding best_branch_below
    best_branch_below-Outweighs node q b =
        best_branch-Outweighs (length self.entries) node q b (branch_within node q b)
