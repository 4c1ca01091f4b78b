-- ===== src/Map/Distinct.antt =====
-- No key stands twice in a map that insertion builds from the empty one.
use distributed_intranet.Base.{
  ℕ, ◌≡◌, refl, Bool, true, false, not, ◌&&◌, ◌||◌, some, List, [], ◌∷◌, arith, inl, inr,
}
use distributed_intranet.Base.Tests.{◌==◌, Bool-cases}
use distributed_intranet.Base.Lists.{any, is_empty}
use distributed_intranet.Base.Order.{nat_ord}
use distributed_intranet.Map.{Map, get, insert, keys, contains_key, replace, insert_new}

abbrev pub listed : ℕ → List ℕ → Bool
listed x xs = any (λ y. y == x) xs

abbrev pub distinct : List ℕ → Bool
distinct [] = true
distinct (x ∷ xs) = not (listed x xs) && distinct xs

module _ {κ} {V : Type κ} where
  listed-keys : (k : ℕ) (m : Map ℕ V) → listed k (keys m) ≡ contains_key k m
  unfolding get
  listed-keys k [] = refl
  listed-keys k ((j, v) ∷ m) = ground (arith, listed-keys k m)

  listed-replace :
      (x k : ℕ) (v : V) (m : Map ℕ V) → listed x (keys (replace k v m)) ≡ listed x (keys m)
  unfolding replace
  listed-replace x k v [] = refl
  listed-replace x k v ((j, w) ∷ m) = ground (arith, listed-replace x k v m)

  distinct-replace :
      (k : ℕ) (v : V) (m : Map ℕ V)
      → distinct (keys m) ≡ true
      → distinct (keys (replace k v m)) ≡ true
  unfolding replace
  distinct-replace k v [] h = refl
  distinct-replace k v ((j, w) ∷ m) h =
      ground (arith, distinct-replace k v m, listed-replace j k v m)

  listed-insert_new :
      (x k : ℕ) (v : V) (m : Map ℕ V)
      → listed x (keys (insert_new k v m)) ≡ ((k == x) || listed x (keys m))
  unfolding insert_new
  listed-insert_new x k v [] = ground arith
  listed-insert_new x k v ((j, w) ∷ m) = ground (arith, listed-insert_new x k v m)

  distinct-insert_new :
      (k : ℕ) (v : V) (m : Map ℕ V)
      → listed k (keys m) ≡ false
      → distinct (keys m) ≡ true
      → distinct (keys (insert_new k v m)) ≡ true
  unfolding insert_new
  distinct-insert_new k v [] new h = ground arith
  distinct-insert_new k v ((j, w) ∷ m) new h =
      ground (arith, distinct-insert_new k v m, listed-insert_new j k v m)

  pub distinct-insert :
      (k : ℕ) (v : V) (m : Map ℕ V)
      → distinct (keys m) ≡ true
      → distinct (keys (insert k v m)) ≡ true
  distinct-insert k v m h = elim (Bool-cases (contains_key k m)) [
    | inl old ↦ unfold insert in rw old (distinct-replace k v m h)
    | inr fresh ↦
        (let l = listed-keys k m in
          unfold insert in rw fresh (distinct-insert_new k v m (ground arith) h))
  ]

  -- Whether every value stands under its own key.
  abbrev pub keyed : (V → ℕ) → Map ℕ V → Bool
  keyed key [] = true
  keyed key ((k, v) ∷ m) = key v == k && keyed key m

  keyed-replace :
      (key : V → ℕ) (k : ℕ) (v : V) (m : Map ℕ V)
      → key v ≡ k
      → keyed key m ≡ true
      → keyed key (replace k v m) ≡ true
  unfolding replace
  keyed-replace key k v [] e h = refl
  keyed-replace key k v ((j, w) ∷ m) e h = ground (arith, keyed-replace key k v m)

  keyed-insert_new :
      (key : V → ℕ) (k : ℕ) (v : V) (m : Map ℕ V)
      → key v ≡ k
      → keyed key m ≡ true
      → keyed key (insert_new k v m) ≡ true
  unfolding insert_new
  keyed-insert_new key k v [] e h = ground arith
  keyed-insert_new key k v ((j, w) ∷ m) e h = ground (arith, keyed-insert_new key k v m)

  pub keyed-insert :
      (key : V → ℕ) (k : ℕ) (v : V) (m : Map ℕ V)
      → key v ≡ k
      → keyed key m ≡ true
      → keyed key (insert k v m) ≡ true
  keyed-insert key k v m e h = elim (Bool-cases (contains_key k m)) [
    | inl old ↦ unfold insert in rw old (keyed-replace key k v m e h)
    | inr fresh ↦ unfold insert in rw fresh (keyed-insert_new key k v m e h)
  ]

  pub keyed-get :
      (key : V → ℕ) (k : ℕ) (v : V) (m : Map ℕ V)
      → get k m ≡ some v
      → keyed key m ≡ true
      → key v ≡ k
  unfolding get
  keyed-get key k v [] found h = cc
  keyed-get key k v ((j, w) ∷ m) found h = ground (arith, keyed-get key k v m)

  pub is_empty-contains : (m : Map ℕ V) (k : ℕ) → contains_key k m ≡ true → is_empty m ≡ false
  unfolding get
  is_empty-contains [] k h = cc
  is_empty-contains (e ∷ m) k h = refl
