-- ===== src/Map/Counts.antt =====
-- How many values of a map pass a test, as entries come and go.
use distributed_intranet.Base.{
  ℕ, suc, ◌≤◌, ◌≡◌, refl, ◌&&◌, Bool, true, some, [], ◌∷◌, arith, inl, inr,
}
use distributed_intranet.Base.Tests.{if◌then◌else◌, Bool-cases}
use distributed_intranet.Base.Lists.{length, filter}
use distributed_intranet.Base.Order.{Ord}
use distributed_intranet.Map.{
  Map, get, insert, remove, retain, values, contains_key, replace, insert_new,
}

module _ {ℓ κ} {K : Type ℓ} {V : Type κ} ⦃o : Ord K⦄ (test : V → Bool) where
  abbrev pub passing : Map K V → ℕ
  passing m = length (filter test (values m))

  abbrev grown : V → Map K V → ℕ
  grown v m = if test v then suc (passing m) else passing m

  passing-replace : (k : K) (v : V) (m : Map K V) → passing (replace k v m) ≤ grown v m
  unfolding replace get
  passing-replace k v [] = omega arith
  passing-replace k v ((i, w) ∷ m) = ground (arith, passing-replace k v m)

  passing-insert_new : (k : K) (v : V) (m : Map K V) → passing (insert_new k v m) ≤ grown v m
  unfolding insert_new
  passing-insert_new k v [] = ground arith
  passing-insert_new k v ((i, w) ∷ m) = ground (arith, passing-insert_new k v m)

  -- A new entry adds at most itself to the count.
  pub passing-insert :
      (k : K) (v : V) (m : Map K V)
      → passing (insert k v m) ≤ (if test v then suc (passing m) else passing m)
  passing-insert k v m = elim (Bool-cases (contains_key k m)) [
    | inl old ↦ unfold insert in ground (arith, passing-replace k v m)
    | inr fresh ↦ unfold insert in ground (arith, passing-insert_new k v m)
  ]

  pub passing-remove : (k : K) (m : Map K V) → passing (remove k m) ≤ passing m
  unfolding remove
  passing-remove k [] = omega arith
  passing-remove k ((i, w) ∷ m) = ground (arith, passing-remove k m)

module _ {ℓ κ} {K : Type ℓ} {V : Type κ} where
  -- Whether every value passes a test.
  abbrev pub every : (V → Bool) → Map K V → Bool
  every test [] = true
  every test ((k, v) ∷ m) = test v && every test m

  pub every-retain :
      (keep before after : V → Bool) (m : Map K V)
      → ((v : V) → keep v ≡ true → before v ≡ true → after v ≡ true)
      → every before m ≡ true
      → every after (retain (λ _ v. keep v) m) ≡ true
  unfolding retain
  every-retain keep before after [] imp h = refl
  every-retain keep before after ((k, v) ∷ m) imp h =
      ground (arith, every-retain keep before after m imp, imp v)

  pub every-map :
      (before after : V → Bool) (m : Map K V)
      → ((v : V) → before v ≡ true → after v ≡ true)
      → every before m ≡ true
      → every after m ≡ true
  every-map before after [] imp h = refl
  every-map before after ((k, v) ∷ m) imp h = ground (arith, every-map before after m imp, imp v)

module _ {ℓ κ} {K : Type ℓ} {V : Type κ} ⦃o : Ord K⦄ (test : V → Bool) where
  every-replace :
      (k : K) (v : V) (m : Map K V)
      → test v ≡ true
      → every test m ≡ true
      → every test (replace k v m) ≡ true
  unfolding replace
  every-replace k v [] t h = refl
  every-replace k v ((i, w) ∷ m) t h = ground (arith, every-replace k v m)

  every-insert_new :
      (k : K) (v : V) (m : Map K V)
      → test v ≡ true
      → every test m ≡ true
      → every test (insert_new k v m) ≡ true
  unfolding insert_new
  every-insert_new k v [] t h = ground arith
  every-insert_new k v ((i, w) ∷ m) t h = ground (arith, every-insert_new k v m)

  pub every-insert :
      (k : K) (v : V) (m : Map K V)
      → test v ≡ true
      → every test m ≡ true
      → every test (insert k v m) ≡ true
  every-insert k v m t h = elim (Bool-cases (contains_key k m)) [
    | inl old ↦ unfold insert in rw old (every-replace k v m t h)
    | inr fresh ↦ unfold insert in rw fresh (every-insert_new k v m t h)
  ]

  pub every-remove : (k : K) (m : Map K V) → every test m ≡ true → every test (remove k m) ≡ true
  unfolding remove
  every-remove k [] h = refl
  every-remove k ((i, w) ∷ m) h = ground (arith, every-remove k m)

  pub every-get :
      (k : K) {v : V} (m : Map K V) → get k m ≡ some v → every test m ≡ true → test v ≡ true
  unfolding get
  every-get k [] h e = cc
  every-get k {v} ((i, w) ∷ m) h e = ground (arith, every-get k {v = v} m)
