-- ===== src/Map.antt =====
-- The ordered maps of the standard library (`BTreeMap`), as lists of entries in ascending key
-- order: `insert` puts a new key at its place in the order and replaces the value of an old one.
pub mod Laws
pub mod Entries
pub mod Counts
pub mod Distinct
pub mod Collect
pub mod Keys
pub mod Every
use Prim.Native.Nat.{Ordering}
use distributed_intranet.Base.{ℕ, ◌≡◌, Bool, true, false, Option, none, some, List, [], ◌∷◌}
use distributed_intranet.Base.Tests.{if◌then◌else◌, is_some}
use distributed_intranet.Base.Lists.{length}
use distributed_intranet.Base.Order.{Ord, ◌=?◌}

abbrev pub Map {ℓ κ} : Type ℓ → Type κ → Type (ℓ ⊔ κ)
Map K V = List (K × V)

module _ {ℓ κ} {K : Type ℓ} {V : Type κ} where
  abbrev pub keys : Map K V → List K
  keys [] = []
  keys ((k, v) ∷ m) = k ∷ keys m

  abbrev pub values : Map K V → List V
  values [] = []
  values ((k, v) ∷ m) = v ∷ values m

  -- `retain`, also the removal of each key that a test picks
  unfoldable pub retain : (K → V → Bool) → Map K V → Map K V
  retain test [] = []
  retain test ((k, v) ∷ m) = let rest = retain test m in if test k v then (k, v) ∷ rest else rest

module _ {ℓ κ} {K : Type ℓ} {V : Type κ} ⦃o : Ord K⦄ where
  unfoldable pub get : K → Map K V → Option V
  get k [] = none
  get k ((j, v) ∷ m) = let rest = get k m in if j =? k then some v else rest

  abbrev pub contains_key : K → Map K V → Bool
  contains_key k m = is_some (get k m)

  replace : K → V → Map K V → Map K V
  replace k v [] = []
  replace k v ((j, w) ∷ m) =
      let rest = replace k v m in if j =? k then (k, v) ∷ m else (j, w) ∷ rest

  insert_new : K → V → Map K V → Map K V
  insert_new k v [] = (k, v) ∷ []
  insert_new k v ((j, w) ∷ m) =
      let rest = insert_new k v m in
      elim (o.cmp k j) [ Ordering.lt ↦ (k, v) ∷ (j, w) ∷ m | _ ↦ (j, w) ∷ rest ]

  unfoldable pub insert : K → V → Map K V → Map K V
  unfolding get replace insert_new
  insert k v m = if contains_key k m then replace k v m else insert_new k v m

  unfoldable pub remove : K → Map K V → Map K V
  remove k [] = []
  remove k ((j, v) ∷ m) = let rest = remove k m in if j =? k then rest else (j, v) ∷ rest
