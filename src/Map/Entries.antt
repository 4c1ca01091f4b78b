-- ===== src/Map/Entries.antt =====
-- The entries of a map that a test keeps.
use distributed_intranet.Base.{
  suc, ◌+◌, ◌≡◌, refl, some, sym, subst, Bool, true, false, not, [], ◌∷◌, arith, inl, inr, ap,
}
use distributed_intranet.Base.Tests.{Bool-cases}
use distributed_intranet.Base.Lists.{length, any, Among, here, there, Among-cons, Among-nil}
use distributed_intranet.Base.Order.{Ord, ◌=?◌}
use distributed_intranet.Map.{Map, get, keys, values, retain, remove}

module _ {ℓ κ} {K : Type ℓ} {V : Type κ} where
  pub length-keys : (m : Map K V) → length (keys m) ≡ length m
  length-keys [] = refl
  length-keys ((k, v) ∷ m) = ap suc (length-keys m)

  -- A test and its negation part the entries.
  pub length-parts :
      (test : K → V → Bool) (m : Map K V)
      → length (retain test m) + length (retain (λ k v. not (test k v)) m) ≡ length m
  unfolding retain
  length-parts test [] = omega arith
  length-parts test ((k, v) ∷ m) = ground (arith, length-parts test m)

  pub Among-keys : {k : K} {v : V} {m : Map K V} → Among (k, v) m → Among k (keys m)
  Among-keys here = here
  Among-keys (there m) = there (Among-keys m)

  pub Among-of_keys : {k : K} (m : Map K V) → Among k (keys m) → (v : V) × Among (k, v) m
  Among-of_keys [] h = absurd (Among-nil h)
  Among-of_keys ((j, w) ∷ m) h = elim (Among-cons h) [
    | inl same ↦ (w, subst (λ i. Among (i, w) ((j, w) ∷ m)) (sym same) here)
    | inr later ↦ let (v, found) = Among-of_keys m later in (v, there found)
  ]

  pub Among-retain :
      (test : K → V → Bool) {k : K} {v : V} {m : Map K V}
      → Among (k, v) m
      → test k v ≡ true
      → Among (k, v) (retain test m)
  unfolding retain
  Among-retain test here e = rw e here
  Among-retain test {m = (j, w) ∷ m} (there later) e = elim (Bool-cases (test j w)) [
    | inl kept ↦ rw kept (there (Among-retain test later e))
    | inr gone ↦ rw gone (Among-retain test later e)
  ]

  pub Among-of_retain :
      (test : K → V → Bool) {k : K} {v : V} (m : Map K V)
      → Among (k, v) (retain test m)
      → Among (k, v) m × (test k v ≡ true)
  unfolding retain
  Among-of_retain test [] h = absurd (Among-nil h)
  Among-of_retain test {k} {v} ((j, w) ∷ m) h = elim (Bool-cases (test j w)) [
    | inl kept ↦ elim (Among-cons (rw kept at h)) [
      | inl same ↦ (
        subst (λ e. Among e ((j, w) ∷ m)) (sym same) here,
        subst (λ e. test e.0 e.1 ≡ true) (sym same) kept,
      )
      | inr later ↦ let (a, b) = Among-of_retain test m later in (there a, b)
    ]
    | inr gone ↦ let (a, b) = Among-of_retain test m (rw gone at h) in (there a, b)
  ]

module _ {ℓ κ} {K : Type ℓ} {V : Type κ} ⦃o : Ord K⦄ where
  pub Among-remove :
      (j : K) {k : K} {v : V} {m : Map K V}
      → Among (k, v) m
      → (k =? j) ≡ false
      → Among (k, v) (remove j m)
  unfolding remove
  Among-remove j here e = rw e here
  Among-remove j {m = (i, w) ∷ m} (there later) e = elim (Bool-cases (i =? j)) [
    | inl gone ↦ rw gone (Among-remove j later e)
    | inr kept ↦ rw kept (there (Among-remove j later e))
  ]

  -- What is found under a key is one of the values.
  pub any-get :
      (test : V → Bool) (k : K) {v : V} (m : Map K V)
      → get k m ≡ some v
      → test v ≡ true
      → any test (values m) ≡ true
  unfolding get
  any-get test k [] h t = cc
  any-get test k {v} ((i, w) ∷ m) h t = ground (arith, any-get test k {v = v} m)
