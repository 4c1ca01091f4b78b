-- ===== src/Governance/Log/Sound.antt =====
-- A log whose links make no cycle, and the ways up from its entries.
use distributed_intranet.Base.{
  ℕ, zero, suc, ◌<◌, ◌≡◌, refl, sym, subst, true, Option, none, some, List, [], ◌∷◌, ◌++◌, arith,
  inl, inr,
}
use distributed_intranet.Base.Tests.{◌==◌, Bool-cases, is_some}
use distributed_intranet.Base.Lists.{length, Among, here, there, Among-rev, rev}
use distributed_intranet.Base.Order.{nat_ord}
use distributed_intranet.Map.{get, contains_key}
use distributed_intranet.Governance.Entry.{LogEntry}
use distributed_intranet.Governance.Log.{GovernanceLog}
use distributed_intranet.Governance.Log.Fork.{
  parent_of, parent_in, children_of, upwards, climb, ancestry, seek, seek_on,
}

-- Parents are in the log and of smaller rank than their children, ranks are below the number of
-- entries, and the children that an entry lists have it as their parent.
pub record IsSound (self : GovernanceLog) : Type 0 where
  pub rank : ℕ → ℕ
  pub falls : (h p : ℕ) → parent_of self h ≡ some p → rank p < rank h
  pub closed : (h p : ℕ) → parent_of self h ≡ some p → contains_key p self.entries ≡ true
  pub bounded : (h : ℕ) → contains_key h self.entries ≡ true → rank h < length self.entries
  pub linked : (p c : ℕ) → Among c (children_of self p) → parent_of self c ≡ some p

-- `h` is met on the way up from an entry, which may be `h` itself.
pub data Above (self : GovernanceLog) (h : ℕ) : ℕ → Type 0 where
  at : Above self h h
  up : {d p : ℕ} → parent_of self d ≡ some p → Above self h p → Above self h d

pub Above-trans :
    {self : GovernanceLog} {h m d : ℕ} → Above self h m → Above self m d → Above self h d
Above-trans a at = a
Above-trans a (up e b) = up e (Above-trans a b)

pub parent_of-contains :
    (self : GovernanceLog) (h p : ℕ)
    → parent_of self h ≡ some p
    → contains_key h self.entries ≡ true
unfolding parent_of
parent_of-contains self h p e = held (get h self.entries) e
  where
    held : (o : Option LogEntry) → parent_in o ≡ some p → is_some o ≡ true
    held none e = cc
    held (some entry) e = refl

module _ (self : GovernanceLog) where
  pub rank_below :
      (sound : IsSound self) (h p : ℕ)
      → parent_of self h ≡ some p
      → sound.rank h < length self.entries
  rank_below sound h p e = sound.bounded h (parent_of-contains self h p e)

  seek_up-Above :
      (fuel h : ℕ) (o : Option ℕ)
      → ((c : ℕ) → seek self fuel h c ≡ true → Above self h c)
      → seek_on (seek self fuel h) o ≡ true
      → (p : ℕ) × ((o ≡ some p) × Above self h p)
  seek_up-Above fuel h none ih s = cc
  seek_up-Above fuel h (some p) ih s = (p, (refl, ih p s))

  pub seek-Above : (fuel h c : ℕ) → seek self fuel h c ≡ true → Above self h c
  unfolding seek
  seek-Above zero h c s = cc
  seek-Above (suc fuel) h c s = elim (Bool-cases (c == h)) [
    | inl same ↦ (let e : c ≡ h = ground arith in subst (λ x. Above self h x) (sym e) at)
    | inr other ↦
        (let (p, found) =
            seek_up-Above fuel h (parent_of self c) (seek-Above fuel h) (ground arith) in
          up found.0 found.1)
  ]

  -- Fuel that is enough for the way up from `c`.
  abbrev pub Enough : IsSound self → ℕ → ℕ → Type 0
  Enough sound c fuel = (0 < fuel) × ((p : ℕ) → parent_of self c ≡ some p → sound.rank c < fuel)

  Enough-up :
      (sound : IsSound self) (c p fuel : ℕ)
      → parent_of self c ≡ some p
      → Enough sound c (suc fuel)
      → Enough sound p fuel
  Enough-up sound c p fuel e enough =
      let below = sound.falls c p e in
      let within = enough.1 p e in (omega arith, λ q f. omega arith)

  pub Enough-all : (sound : IsSound self) (c : ℕ) → Enough sound c (suc (length self.entries))
  Enough-all sound c = (omega arith, λ p e. (let b = rank_below sound c p e in omega arith))

  pub Above-seek :
      (sound : IsSound self) (fuel h c : ℕ)
      → Enough sound c fuel
      → Above self h c
      → seek self fuel h c ≡ true
  unfolding seek
  Above-seek sound zero h c enough a = absurd (omega (arith, enough.0))
  Above-seek sound (suc fuel) h _ enough at = (let s : h == h ≡ true = ground arith in rw s refl)
  Above-seek sound (suc fuel) h c enough (up {p = p} e b) =
      let later = Above-seek sound fuel h p (Enough-up sound c p fuel e enough) b in ground arith

  pub Above-climb :
      (sound : IsSound self) (fuel h c : ℕ)
      → Enough sound c fuel
      → Above self h c
      → Among h (climb self fuel c)
  unfolding climb
  Above-climb sound zero h c enough a = absurd (omega (arith, enough.0))
  Above-climb sound (suc fuel) h _ enough at = here
  Above-climb sound (suc fuel) h c enough (up {p = p} e b) = there (
      subst (λ o. Among h (upwards (climb self fuel) o)) (sym e)
        (Above-climb sound fuel h p (Enough-up sound c p fuel e enough) b))

  -- Each is the parent of the next.
  abbrev pub FollowsFrom : ℕ → List ℕ → Type 0
  FollowsFrom x [] = Unit
  FollowsFrom x (y ∷ rest) = (parent_of self y ≡ some x) × FollowsFrom y rest

  abbrev pub Follows : List ℕ → Type 0
  Follows [] = Unit
  Follows (x ∷ rest) = FollowsFrom x rest

  abbrev pub LastIs : List ℕ → ℕ → Type 0
  LastIs [] h = Unit
  LastIs (x ∷ []) h = x ≡ h
  LastIs (x ∷ y ∷ rest) h = LastIs (y ∷ rest) h

  pub follow_on : (h : ℕ) (ys : List ℕ) → FollowsFrom h ys → Follows ys
  follow_on h [] f = tt
  follow_on h (y ∷ ys) f = f.1

  pub Follows-append :
      (xs ys : List ℕ) (h : ℕ) → Follows xs → LastIs xs h → FollowsFrom h ys → Follows (xs ++ ys)
  Follows-append [] ys h f l g = follow_on h ys g
  Follows-append (x ∷ []) ys h f l g = subst (λ z. FollowsFrom z ys) (sym l) g
  Follows-append (x ∷ y ∷ xs) ys h f l g = (f.0, Follows-append (y ∷ xs) ys h f.1 l g)

  LastIs-snoc : (xs : List ℕ) (h : ℕ) → LastIs (xs ++ h ∷ []) h
  LastIs-snoc [] h = refl
  LastIs-snoc (x ∷ []) h = refl
  LastIs-snoc (x ∷ y ∷ xs) h = LastIs-snoc (y ∷ xs) h

  climbed-LastIs : (fuel h : ℕ) → LastIs (rev (climb self fuel h)) h
  unfolding climb
  climbed-LastIs zero h = tt
  climbed-LastIs (suc fuel) h = LastIs-snoc (rev (upwards (climb self fuel) (parent_of self h))) h

  climbed_up :
      (fuel h : ℕ) (o : Option ℕ)
      → parent_of self h ≡ o
      → ((p : ℕ) → Follows (rev (climb self fuel p)))
      → Follows (rev (upwards (climb self fuel) o) ++ h ∷ [])
  climbed_up fuel h none e ih = tt
  climbed_up fuel h (some p) e ih =
      Follows-append (rev (climb self fuel p)) (h ∷ []) p (ih p) (climbed-LastIs fuel p) (e, tt)

  climbed-Follows : (fuel h : ℕ) → Follows (rev (climb self fuel h))
  unfolding climb
  climbed-Follows zero h = tt
  climbed-Follows (suc fuel) h = climbed_up fuel h (parent_of self h) refl (climbed-Follows fuel)

  pub ancestry-Follows : (h : ℕ) → Follows (ancestry self h)
  unfolding ancestry
  ancestry-Follows h = climbed-Follows (suc (length self.entries)) h

  pub ancestry-LastIs : (h : ℕ) → LastIs (ancestry self h) h
  unfolding ancestry
  ancestry-LastIs h = climbed-LastIs (suc (length self.entries)) h

  pub Above-ancestry : (sound : IsSound self) (h c : ℕ) → Above self h c → Among h (ancestry self c)
  unfolding ancestry
  Above-ancestry sound h c a =
      Among-rev (Above-climb sound (suc (length self.entries)) h c (Enough-all sound c) a)
