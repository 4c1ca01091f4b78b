-- ===== src/Governance/Log/Binding.antt =====
-- Finality binds: what is final stays final and on the canonical chain.
use distributed_intranet.Base.{
  ℕ, zero, suc, ◌+◌, ◌<◌, ◌≡◌, refl, sym, subst, ◌∙◌, Bool, true, ◌⊎◌, Option, none, some, List, [],
  ◌∷◌, arith, inl, inr,
}
use distributed_intranet.Base.Tests.{leb, ◌==◌, Bool-cases}
use distributed_intranet.Base.Lists.{length, Among, Among-cons, Among-nil, Among-append_left}
use distributed_intranet.Crypto.{Crypto}
use distributed_intranet.Crypto.Time.{Timestamp}
use distributed_intranet.Governance.Policy.{FinalityParams}
use distributed_intranet.Governance.Error.{Result, ok, err}
use distributed_intranet.Governance.Entry.{LogEntry}
use distributed_intranet.Governance.State.{GovernanceState}
use distributed_intranet.Base.Order.{nat_ord}
use distributed_intranet.Map.{get}
use distributed_intranet.Governance.Log.{GovernanceLog}
use distributed_intranet.Governance.Log.Fork.{
  seek, seek_on, is_final, ancestry, best_branch_below, canonical_chain, chain_from, start_or,
}
use distributed_intranet.Governance.Log.Finality.{
  position, one_later, at_index, mark, newly_final, is_final_below, target, position_in, move_to,
  advance_with, replay_canonical, advance_finality, reconcile, reconcile_from,
}
use distributed_intranet.Governance.Log.Sound.{
  IsSound, Above, at, up, Above-trans, seek-Above, Above-seek, Enough-all, FollowsFrom, Follows,
  Follows-append, follow_on, ancestry-Follows, ancestry-LastIs, Above-ancestry,
}
use distributed_intranet.Governance.Log.Branch.{best_branch-FollowsFrom}

module _ (self : GovernanceLog) where
  -- Final entries are those above the finalized one.
  abbrev FinalAbove : Option ℕ → ℕ → Type 0
  FinalAbove none h = ⊥
  FinalAbove (some f) h = Above self h f

  final_seek-Above :
      (o : Option ℕ) (h fuel : ℕ) → seek_on (seek self fuel h) o ≡ true → FinalAbove o h
  final_seek-Above none h fuel s = cc
  final_seek-Above (some f) h fuel s = seek-Above self fuel h f s

  Above-final_seek :
      (sound : IsSound self) (o : Option ℕ) (h : ℕ)
      → FinalAbove o h
      → seek_on (seek self (suc (length self.entries)) h) o ≡ true
  Above-final_seek sound none h a = absurd a
  Above-final_seek sound (some f) h a =
      Above-seek self sound (suc (length self.entries)) h f (Enough-all self sound f) a

  position-Among : (h : ℕ) (l : List ℕ) → Among h l → (i : ℕ) × (position h l ≡ some i)
  position-Among h [] m = absurd (Among-nil m)
  position-Among h (x ∷ xs) m = elim (Bool-cases (x == h)) [
    | inl same ↦ (0, rw same refl)
    | inr other ↦ elim (Among-cons m) [
      | inl is ↦ absurd (ground arith)
      | inr later ↦ let (i, found) = position-Among h xs later in (suc i, rw (other, found) refl)
    ]
  ]

  -- Each item of a chain is below those before it.
  FollowsFrom-Above :
      (x : ℕ) (l : List ℕ) (k y : ℕ) → FollowsFrom self x l → at_index l k ≡ some y → Above self x y
  FollowsFrom-Above x [] k y f e = cc
  FollowsFrom-Above x (z ∷ l) zero y f e =
      (let s : z ≡ y = cc in subst (λ w. Above self x w) s (up f.0 at))
  FollowsFrom-Above x (z ∷ l) (suc k) y f e =
      Above-trans (up f.0 at) (FollowsFrom-Above z l k y f.1 e)

  one_later-eq-some :
      (o : Option ℕ) {i : ℕ} → one_later o ≡ some i → (k : ℕ) × ((o ≡ some k) × (i ≡ suc k))
  one_later-eq-some none e = cc
  one_later-eq-some (some k) e = (k, (refl, cc))

  after_position :
      (l : List ℕ) (x i j y : ℕ)
      → Follows self l
      → position x l ≡ some i
      → at_index l j ≡ some y
      → i < j
      → Above self x y
  after_position [] x i j y f p e lt = cc
  after_position (z ∷ l) x i zero y f p e lt = absurd (omega (arith, lt))
  after_position (z ∷ l) x i (suc j) y f p e lt = elim (Bool-cases (z == x)) [
    | inl same ↦
        (let s : z ≡ x = ground arith in
          subst (λ w. Above self w y) s (FollowsFrom-Above z l j y f e))
    | inr other ↦
        (let (k, found) = one_later-eq-some (position x l) {i = i} (ground arith) in
          after_position l x k j y (follow_on self z l f) found.0 e (omega (arith, found.1, lt)))
  ]

  pub chain-Follows : IsSound self → (o : Option ℕ) → Follows self (chain_from self o)
  unfolding best_branch_below
  chain-Follows sound none = tt
  chain-Follows sound (some root) =
      let start = start_or self self.finalized root in
      Follows-append self (ancestry self start) (best_branch_below self start) start
        (ancestry-Follows self start) (ancestry-LastIs self start)
        (best_branch-FollowsFrom self sound (length self.entries) start)

  -- What is final is on the canonical chain.
  final_on_chain :
      (sound : IsSound self) (o : Option ℕ) (root h : ℕ)
      → self.finalized ≡ o
      → FinalAbove o h
      → Among h (chain_from self (some root))
  final_on_chain sound none root h e a = absurd a
  final_on_chain sound (some f) root h e a =
      Among-append_left (best_branch_below self (start_or self self.finalized root)) (
        subst (λ o. Among h (ancestry self (start_or self o root))) (sym e)
          (Above-ancestry self sound h f a))

  -- In a log without cycles that has a root, every final entry is on the canonical chain.
  pub final_on_canonical_chain :
      IsSound self
      → (root h : ℕ) → self.root ≡ some root
      → is_final self h ≡ true
      → Among h (canonical_chain self)
  unfolding is_final canonical_chain
  final_on_canonical_chain sound root h rooted final =
      subst (λ o. Among h (chain_from self o)) (sym rooted)
        (final_on_chain sound self.finalized root h refl
          (final_seek-Above self.finalized h (suc (length self.entries)) final))

at_index_within : (l : List ℕ) (j : ℕ) → j < length l → (y : ℕ) × (at_index l j ≡ some y)
at_index_within [] j h = absurd (omega (arith, h))
at_index_within (x ∷ l) zero h = (x, refl)
at_index_within (x ∷ l) (suc j) h = at_index_within l j (omega (arith, h))

marked :
    (test : LogEntry → Bool) (index : ℕ) (best : Option ℕ) (o : Option LogEntry) {j : ℕ}
    → mark test index best o ≡ some j
    → (best ≡ some j) ⊎ (index ≡ j)
marked test index best none e = inl e
marked test index best (some entry) e = elim (Bool-cases (test entry)) [
  | inl passed ↦ inr (ground arith)
  | inr failed ↦ inl (ground arith)
]

newly_final_within :
    (self : GovernanceLog) (params : FinalityParams) (now : Timestamp) (l : List ℕ) (index : ℕ)
    (best : Option ℕ) {j : ℕ}
    → newly_final self params now l index best ≡ some j
    → (best ≡ some j) ⊎ (j < index + length l)
unfolding newly_final
newly_final_within self params now [] index best e = inl e
newly_final_within self params now (h ∷ later) index best e =
    elim (newly_final_within self params now later (index + 1)
      (mark (is_final_below self params now later) index best (get h self.entries)) e) [
        | inl was ↦
            elim (marked (is_final_below self params now later) index best (get h self.entries)
              was) [ inl old ↦ inl old | inr here_now ↦ inr (omega arith) ]
        | inr further ↦ inr (omega (arith, further))
      ]

target-eq-some :
    (already newly : Option ℕ) {j : ℕ}
    → target already newly ≡ some j
    → (newly ≡ some j) × ((i : ℕ) → already ≡ some i → i < j)
unfolding target
target-eq-some none none e = cc
target-eq-some (some current) none e = cc
target-eq-some none (some candidate) e = (e, λ i s. cc)
target-eq-some (some current) (some candidate) e = elim (Bool-cases (leb candidate current)) [
  | inl back ↦ absurd (ground arith)
  | inr forward ↦ (ground arith, λ i s. ground arith)
]

module _ (self : GovernanceLog) (sound : IsSound self) (h : ℕ)
    (final : is_final self h ≡ true) where
  moved_to :
      (canonical : List ℕ) (j : ℕ)
      → Follows self canonical
      → j < length canonical
      → ((f : ℕ) → self.finalized ≡ some f → (i : ℕ) × ((position f canonical ≡ some i) × (i < j)))
      → is_final (record self { finalized = at_index canonical j }) h ≡ true
  unfolding is_final
  moved_to canonical j follows within before =
      let (y, there_is) = at_index_within canonical j within in
      Above-final_seek self sound (at_index canonical j) h (
        subst (λ o. FinalAbove self o h) (sym there_is)
          (from self.finalized refl
            (final_seek-Above self self.finalized h (suc (length self.entries)) final) y there_is))
    where
      from :
          (o : Option ℕ)
          → self.finalized ≡ o
          → FinalAbove self o h
          → (y : ℕ) → at_index canonical j ≡ some y
          → Above self h y
      from none e a y t = absurd a
      from (some f) e a y t =
          let (i, p) = before f e in
          Above-trans a (after_position self canonical f i j y follows p.0 t p.1)

  found_before :
      (canonical : List ℕ) (j : ℕ)
      → ((f : ℕ) → self.finalized ≡ some f → Among f canonical)
      → ((i : ℕ) → position_in self.finalized canonical ≡ some i → i < j)
      → (f : ℕ) → self.finalized ≡ some f
      → (i : ℕ) × ((position f canonical ≡ some i) × (i < j))
  found_before canonical j on before f e =
      let (i, p) = position-Among self f canonical (on f e) in
      (i, (p, before i (subst (λ o. position_in o canonical ≡ some i) (sym e) p)))

  move_keeps :
      (canonical : List ℕ) (already newly t : Option ℕ)
      → position_in self.finalized canonical ≡ already
      → target already newly ≡ t
      → ((j : ℕ) → newly ≡ some j → j < length canonical)
      → Follows self canonical
      → ((f : ℕ) → self.finalized ≡ some f → Among f canonical)
      → is_final (move_to self canonical t) h ≡ true
  move_keeps canonical already newly none a e within follows on = final
  move_keeps canonical already newly (some j) a e within follows on =
      let (new, later) = target-eq-some already newly e in
      moved_to canonical j follows (within j new)
        (found_before canonical j on (λ i p. later i (sym a ∙ p)))

  advance_keeps :
      (canonical : List ℕ) (now : Timestamp) (result : Result GovernanceState)
      → Follows self canonical
      → ((f : ℕ) → self.finalized ≡ some f → Among f canonical)
      → is_final (advance_with self canonical now result) h ≡ true
  advance_keeps canonical now (err _) follows on = final
  advance_keeps canonical now (ok state) follows on =
      move_keeps canonical (position_in self.finalized canonical)
        (newly_final self state.policy.finality now canonical 0 none) _ refl refl
        (λ j e. elim (newly_final_within self state.policy.finality now canonical 0 none e) [
          | inl was ↦ cc
          | inr within ↦ omega (arith, within)
        ])
        follows on

  reconcile_from_keeps :
      (crypto : Crypto) (o : Option ℕ) (now : Timestamp)
      → self.root ≡ o
      → is_final (reconcile_from crypto o now self).0 h ≡ true
  unfolding advance_finality canonical_chain
  reconcile_from_keeps crypto none now e = final
  reconcile_from_keeps crypto (some root) now e =
      advance_keeps (canonical_chain self) now (replay_canonical crypto self)
        (chain-Follows self sound self.root)
        (λ f is.
          subst (λ o. Among f (chain_from self o)) (sym e)
            (final_on_chain self sound (some f) root f is at))

  -- In a log without cycles, an entry that is final is still final after reconciling at any time.
  pub reconcile_keeps_final :
      (crypto : Crypto) (now : Timestamp) → is_final (reconcile crypto now self).0 h ≡ true
  unfolding reconcile
  reconcile_keeps_final crypto now = reconcile_from_keeps crypto self.root now refl
