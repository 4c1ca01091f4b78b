-- ===== src/Map/Keys.antt =====
-- The keys of a map after an insertion.
use Prim.Native.Nat.{Ordering}
use distributed_intranet.Base.{◌≡◌, refl, sym, ap, subst, ◌⊎◌, [], ◌∷◌, inl, inr, List}
use distributed_intranet.Base.Tests.{Bool-cases}
use distributed_intranet.Base.Lists.{Among, here, there, Among-cons}
use distributed_intranet.Base.Order.{Ord, ◌=?◌, eq_of_=?}
use distributed_intranet.Map.{Map, keys, contains_key, replace, insert_new, insert}

after_head {ℓ} :
    {K : Type ℓ} (k j c : K) (js is : List K)
    → (Among c is → (c ≡ k) ⊎ Among c js)
    → Among c (j ∷ is)
    → (c ≡ k) ⊎ Among c (j ∷ js)
after_head k j c js is later a = elim (Among-cons a) [
  | inl same ↦ inr (subst (λ i. Among i (j ∷ js)) (sym same) here)
  | inr b ↦ elim (later b) [ inl e ↦ inl e | inr d ↦ inr (there d) ]
]

module _ {ℓ κ} {K : Type ℓ} {V : Type κ} ⦃o : Ord K⦄ where
  keys-replace : (k : K) (v : V) (m : Map K V) → keys (replace k v m) ≡ keys m
  unfolding replace
  keys-replace k v [] = refl
  keys-replace k v ((j, w) ∷ m) = elim (Bool-cases (j =? k)) [
    | inl same ↦ (let e = eq_of_=? j k same in rw same (ap (λ i. i ∷ keys m) (sym e)))
    | inr other ↦ rw other (ap (λ l. j ∷ l) (keys-replace k v m))
  ]

  placed :
      (k j c : K) (v w : V) (m rest : Map K V) (d : Ordering)
      → (Among c (keys rest) → (c ≡ k) ⊎ Among c (keys m))
      → Among c (keys (elim d [ Ordering.lt ↦ (k, v) ∷ (j, w) ∷ m | _ ↦ (j, w) ∷ rest ]))
      → (c ≡ k) ⊎ Among c (j ∷ keys m)
  placed k j c v w m rest Ordering.lt later a = Among-cons a
  placed k j c v w m rest Ordering.eq later a = after_head k j c (keys m) (keys rest) later a
  placed k j c v w m rest Ordering.gt later a = after_head k j c (keys m) (keys rest) later a

  Among-insert_new :
      (k : K) (v : V) (c : K) (m : Map K V)
      → Among c (keys (insert_new k v m))
      → (c ≡ k) ⊎ Among c (keys m)
  unfolding insert_new
  Among-insert_new k v c [] a = Among-cons a
  Among-insert_new k v c ((j, w) ∷ m) a =
      placed k j c v w m (insert_new k v m) (o.cmp k j) (Among-insert_new k v c m) a

  pub Among-insert :
      (k : K) (v : V) (c : K) (m : Map K V)
      → Among c (keys (insert k v m))
      → (c ≡ k) ⊎ Among c (keys m)
  unfolding insert
  Among-insert k v c m a = elim (Bool-cases (contains_key k m)) [
    | inl old ↦ inr (subst (λ l. Among c l) (keys-replace k v m) (rw old at a))
    | inr new ↦ Among-insert_new k v c m (rw new at a)
  ]
