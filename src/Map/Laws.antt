-- ===== src/Map/Laws.antt =====
-- What a lookup finds after each operation of a map, and how many entries the map then has.
use distributed_intranet.Base.{
  ◌+◌, ◌≤◌, ◌≡◌, refl, Bool, false, none, some, [], ◌∷◌, arith, inl, inr, ◌&&◌,
}
use distributed_intranet.Base.Tests.{if◌then◌else◌, Bool-cases}
use distributed_intranet.Base.Lists.{length}
use distributed_intranet.Base.Order.{Ord, ◌=?◌, =?_refl}
use distributed_intranet.Map.{Map, get, insert, replace, insert_new, remove, retain, contains_key}

module _ {ℓ κ} {K : Type ℓ} {V : Type κ} ⦃o : Ord K⦄ where
  get-replace :
      (k j : K) (v : V) (m : Map K V)
      → get j (replace k v m) ≡ (if (k =? j) && contains_key k m then some v else get j m)
  unfolding get replace
  get-replace k j v [] = ground arith
  get-replace k j v ((i, w) ∷ m) =
      ground (
        arith,
        get-replace k j v m,
        o.eq_of_cmp i k,
        o.eq_of_cmp i j,
        o.eq_of_cmp k j,
        o.cmp_refl k,
      )

  get-insert_new :
      (k j : K) (v : V) (m : Map K V)
      → contains_key k m ≡ false
      → get j (insert_new k v m) ≡ (if k =? j then some v else get j m)
  unfolding get insert_new
  get-insert_new k j v [] h = refl
  get-insert_new k j v ((i, w) ∷ m) h = ground (
    arith,
    get-insert_new k j v m,
    o.eq_of_cmp i k,
    o.eq_of_cmp i j,
    o.eq_of_cmp k j,
    o.cmp_refl k,
  )

  pub get-insert :
      (k j : K) (v : V) (m : Map K V) → get j (insert k v m) ≡ (if k =? j then some v else get j m)
  get-insert k j v m = elim (Bool-cases (contains_key k m)) [
    | inl old ↦ unfold insert in rw (old, get-replace k j v m) (ground arith)
    | inr new ↦ unfold insert in rw (new, get-insert_new k j v m new) refl
  ]

  pub get-insert_self : (k : K) (v : V) (m : Map K V) → get k (insert k v m) ≡ some v
  get-insert_self k v m = rw get-insert (rw (=?_refl k) refl)

  pub get-remove : (k j : K) (m : Map K V) → get j (remove k m) ≡ (if k =? j then none else get j m)
  unfolding get remove
  get-remove k j [] = ground arith
  get-remove k j ((i, w) ∷ m) =
      ground
        (arith, get-remove k j m, o.eq_of_cmp i k, o.eq_of_cmp i j, o.eq_of_cmp k j, o.cmp_refl k)

  length-replace : (k : K) (v : V) (m : Map K V) → length (replace k v m) ≡ length m
  unfolding replace
  length-replace k v [] = refl
  length-replace k v ((i, w) ∷ m) = ground (arith, length-replace k v m)

  length-insert_new : (k : K) (v : V) (m : Map K V) → length (insert_new k v m) ≡ length m + 1
  unfolding insert_new
  length-insert_new k v [] = omega arith
  length-insert_new k v ((i, w) ∷ m) = ground (arith, length-insert_new k v m)

  pub length-insert :
      (k : K) (v : V) (m : Map K V)
      → length (insert k v m) ≡ (if contains_key k m then length m else length m + 1)
  length-insert k v m = elim (Bool-cases (contains_key k m)) [
    | inl old ↦ unfold insert in rw (old, length-replace k v m) refl
    | inr new ↦ unfold insert in rw (new, length-insert_new k v m) refl
  ]

  pub length-remove : (k : K) (m : Map K V) → length (remove k m) ≤ length m
  unfolding remove
  length-remove k [] = omega arith
  length-remove k ((i, w) ∷ m) = ground (arith, length-remove k m)

  pub length-retain : (test : K → V → Bool) (m : Map K V) → length (retain test m) ≤ length m
  unfolding retain
  length-retain test [] = omega arith
  length-retain test ((i, w) ∷ m) = ground (arith, length-retain test m)
