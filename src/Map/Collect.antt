-- ===== src/Map/Collect.antt =====
-- `collect` into a BTreeMap or a BTreeSet: the entries go in one after the other.
use Prim.Native.Nat.{Ordering}
use distributed_intranet.Base.{
  ◌≡◌, refl, sym, ap, ◌∙◌, false, none, List, [], ◌∷◌, ◌++◌, map, arith,
}
use mathlib.Core.List.{append-nil, append_assoc}
use distributed_intranet.Base.Lists.{All}
use distributed_intranet.Base.Order.{Ord, ◌=?◌}
use distributed_intranet.Map.{Map, keys, get, insert_new, insert}

module _ {K : Type 0} ⦃o : Ord K⦄ where
  -- The key comes after all of these.
  abbrev pub After : K → List K → Type 0
  After k js = All (λ j. o.cmp k j ≡ Ordering.gt) js

  -- In strictly ascending order, as every map and set is.
  abbrev pub Ascending : List K → Type 0
  Ascending [] = Unit
  Ascending (k ∷ ks) = All (λ j. o.cmp j k ≡ Ordering.gt) ks × Ascending ks

  apart : (k j : K) → o.cmp k j ≡ Ordering.gt → (j =? k) ≡ false
  apart k j h = ground (arith, o.eq_of_cmp j k, o.cmp_refl k)

  all-After : (ks : List K) → All (λ k. After k []) ks
  all-After [] = tt
  all-After (k ∷ ks) = (tt, all-After ks)

All-snoc :
    {K V : Type 0} (P : K → Type 0) {k : K} (v : V) (m : Map K V)
    → All P (keys m)
    → P k
    → All P (keys (m ++ (k, v) ∷ []))
All-snoc P v [] h p = (p, tt)
All-snoc P v (_ ∷ m) h p = (h.0, All-snoc P v m h.1 p)

module _ {K : Type 0} {V : Type 0} ⦃o : Ord K⦄ where
  unfoldable pub extend : Map K V → List (K × V) → Map K V
  unfolding insert
  extend m [] = m
  extend m ((k, v) ∷ rest) = extend (insert k v m) rest

  unfoldable pub collect_map : List (K × V) → Map K V
  unfolding extend
  collect_map items = extend [] items

  insert_new-After :
      (k : K) (v : V) (m : Map K V) → After k (keys m) → insert_new k v m ≡ m ++ (k, v) ∷ []
  unfolding insert_new
  insert_new-After k v [] h = refl
  insert_new-After k v ((j, w) ∷ m) h =
      rw (insert_new, h.0) (ap (λ l. (j, w) ∷ l) (insert_new-After k v m h.1))

  get-After :
      (k : K) (m : Map K V)
      → ((j : K) → o.cmp k j ≡ Ordering.gt → (j =? k) ≡ false)
      → After k (keys m)
      → get k m ≡ none
  unfolding get
  get-After k [] apart h = refl
  get-After k ((j, w) ∷ m) apart h = rw (apart j h.0) (get-After k m apart h.1)

  insert-After : (k : K) (v : V) (m : Map K V) → After k (keys m) → insert k v m ≡ m ++ (k, v) ∷ []
  unfolding insert
  insert-After k v m h = rw (get-After k m (apart k) h) (insert_new-After k v m h)

  later :
      (m : Map K V) (k : K) (v : V) (js : List K)
      → All (λ j. After j (keys m)) js
      → All (λ j. o.cmp j k ≡ Ordering.gt) js
      → All (λ j. After j (keys (m ++ (k, v) ∷ []))) js
  later m k v [] a b = tt
  later m k v (j ∷ js) a b =
      (All-snoc (λ i. o.cmp j i ≡ Ordering.gt) v m a.0 b.0, later m k v js a.1 b.1)

  extend-append :
      (m items : Map K V)
      → All (λ k. After k (keys m)) (keys items)
      → Ascending (keys items)
      → extend m items ≡ m ++ items
  unfolding extend
  extend-append m [] a h = sym (append-nil m)
  extend-append m ((k, v) ∷ rest) a h = rw (insert-After k v m a.0) (
      extend-append (m ++ (k, v) ∷ []) rest (later m k v (keys rest) a.1 h.0) h.1
      ∙ append_assoc m ((k, v) ∷ []) rest)

  pub collect_map-ascending : (m : Map K V) → Ascending (keys m) → collect_map m ≡ m
  unfolding collect_map
  collect_map-ascending m h = extend-append [] m (all-After (keys m)) h

module _ {K : Type 0} ⦃o : Ord K⦄ where
  unfoldable pub collect_set : List K → List K
  unfolding collect_map
  collect_set items = keys (collect_map (map (λ k. (k, tt {0})) items))

  keys_paired : (ks : List K) → keys (map (λ k. (k, tt {0})) ks) ≡ ks
  keys_paired [] = refl
  keys_paired (k ∷ ks) = ap (λ l. k ∷ l) (keys_paired ks)

  pub collect_set-ascending : (ks : List K) → Ascending ks → collect_set ks ≡ ks
  unfolding collect_set
  collect_set-ascending ks h =
      rw (collect_map-ascending (map (λ k. (k, tt)) ks) (rw (keys_paired ks) h)) (keys_paired ks)
