-- ===== src/Map/Every.antt =====
-- A property of every entry of a map, kept by its operations.
use Prim.Native.Nat.{Ordering}
use distributed_intranet.Base.{◌≡◌, true, Bool, [], ◌∷◌, inl, inr}
use distributed_intranet.Base.Tests.{Bool-cases}
use distributed_intranet.Base.Order.{Ord, ◌=?◌}
use distributed_intranet.Map.{Map, contains_key, replace, insert_new, insert, remove, retain}

abbrev pub Every : {K V : Type 0} → (K → V → Type 0) → Map K V → Type 0
Every P [] = Unit
Every P ((k, v) ∷ m) = P k v × Every P m

pub Every-retain :
    {K V : Type 0} (P : K → V → Type 0) (test : K → V → Bool) (m : Map K V)
    → Every P m
    → Every P (retain test m)
unfolding retain
Every-retain P test [] h = tt
Every-retain P test ((k, v) ∷ m) h = elim (Bool-cases (test k v)) [
  | inl stays ↦ rw stays (h.0, Every-retain P test m h.1)
  | inr goes ↦ rw goes (Every-retain P test m h.1)
]

pub Every-retained :
    {K V : Type 0} (test : K → V → Bool) (m : Map K V)
    → Every (λ k v. test k v ≡ true) (retain test m)
unfolding retain
Every-retained test [] = tt
Every-retained test ((k, v) ∷ m) = elim (Bool-cases (test k v)) [
  | inl stays ↦ rw stays (stays, Every-retained test m)
  | inr goes ↦ rw goes (Every-retained test m)
]

module _ {K V : Type 0} ⦃o : Ord K⦄ (P : K → V → Type 0) where
  Every-replace : (k : K) (v : V) (m : Map K V) → P k v → Every P m → Every P (replace k v m)
  unfolding replace
  Every-replace k v [] p h = tt
  Every-replace k v ((j, w) ∷ m) p h = elim (Bool-cases (j =? k)) [
    | inl same ↦ rw same (p, h.1)
    | inr other ↦ rw other (h.0, Every-replace k v m p h.1)
  ]

  placed :
      (k j : K) (v w : V) (m rest : Map K V) (d : Ordering)
      → P k v
      → Every P ((j, w) ∷ m)
      → Every P rest
      → Every P (elim d [ Ordering.lt ↦ (k, v) ∷ (j, w) ∷ m | _ ↦ (j, w) ∷ rest ])
  placed k j v w m rest Ordering.lt p h r = (p, h)
  placed k j v w m rest Ordering.eq p h r = (h.0, r)
  placed k j v w m rest Ordering.gt p h r = (h.0, r)

  Every-insert_new : (k : K) (v : V) (m : Map K V) → P k v → Every P m → Every P (insert_new k v m)
  unfolding insert_new
  Every-insert_new k v [] p h = (p, tt)
  Every-insert_new k v ((j, w) ∷ m) p h =
      placed k j v w m (insert_new k v m) (o.cmp k j) p h (Every-insert_new k v m p h.1)

  pub Every-insert : (k : K) (v : V) (m : Map K V) → P k v → Every P m → Every P (insert k v m)
  unfolding insert
  Every-insert k v m p h = elim (Bool-cases (contains_key k m)) [
    | inl old ↦ rw old (Every-replace k v m p h)
    | inr new ↦ rw new (Every-insert_new k v m p h)
  ]

  pub Every-remove : (k : K) (m : Map K V) → Every P m → Every P (remove k m)
  unfolding remove
  Every-remove k [] h = tt
  Every-remove k ((j, w) ∷ m) h = elim (Bool-cases (j =? k)) [
    | inl same ↦ rw same (Every-remove k m h.1)
    | inr other ↦ rw other (h.0, Every-remove k m h.1)
  ]
