-- ===== src/Base/Lists.antt =====
-- Lists measured by native numbers, Boolean searches of a list, and predicates on lists.
use Prim.Native.Nat.{ℕ, zero, suc, ◌+◌, ◌≤◌}
use mathlib.Core.Path.{◌≡◌, refl, sym, subst}
use mathlib.Core.Logic.{◌⊎◌, inl, inr}
use mathlib.Core.Bool.{Bool, true, false, ◌||◌}
use mathlib.Core.List.{List, [], ◌∷◌, ◌++◌}
use native.Mathlib.Omega.{arith}
use distributed_intranet.Base.Tests.{if◌then◌else◌}

module _ {ℓ} {A : Type ℓ} where
  abbrev pub length : List A → ℕ
  length [] = 0
  length (x ∷ xs) = suc (length xs)

  abbrev pub take : ℕ → List A → List A
  take zero xs = []
  take (suc n) [] = []
  take (suc n) (x ∷ xs) = x ∷ take n xs

  abbrev pub drop : ℕ → List A → List A
  drop zero xs = xs
  drop (suc n) [] = []
  drop (suc n) (x ∷ xs) = drop n xs

  -- `iter().filter(test)`
  abbrev pub filter : (A → Bool) → List A → List A
  filter test [] = []
  filter test (x ∷ xs) = let rest = filter test xs in if test x then x ∷ rest else rest

  -- `iter().any(test)`
  abbrev pub any : (A → Bool) → List A → Bool
  any test [] = false
  any test (x ∷ xs) = test x || any test xs

  abbrev pub is_empty : List A → Bool
  is_empty [] = true
  is_empty (_ ∷ _) = false

  pub length-append : (xs ys : List A) → length (xs ++ ys) ≡ length xs + length ys
  length-append [] ys = omega arith
  length-append (x ∷ xs) ys = omega (arith, length-append xs ys)

  pub length-filter : (test : A → Bool) (xs : List A) → length (filter test xs) ≤ length xs
  length-filter test [] = omega arith
  length-filter test (x ∷ xs) = ground (arith, length-filter test xs)

-- Every item has the property.
abbrev pub All {ℓ κ} : {A : Type ℓ} → (A → Type κ) → List A → Type κ
All P [] = Unit
All P (x ∷ xs) = P x × All P xs

-- The item stands in the list, with its place kept.
pub data Among {ℓ} {A : Type ℓ} (a : A) : List A → Type ℓ where
  here : {xs : List A} → Among a (a ∷ xs)
  there : {x : A} {xs : List A} → Among a xs → Among a (x ∷ xs)

pub All-lookup {ℓ κ} :
    {A : Type ℓ} (P : A → Type κ) {a : A} {xs : List A} → All P xs → Among a xs → P a
All-lookup P h here = h.0
All-lookup P h (there m) = All-lookup P h.1 m

module _ {ℓ} {A : Type ℓ} where
  pub Among-cons : {a x : A} {xs : List A} → Among a (x ∷ xs) → (a ≡ x) ⊎ Among a xs
  Among-cons here = inl refl
  Among-cons (there m) = inr m

  pub Among-nil : {a : A} → ¬ Among a []
  Among-nil m = elim m [ ]

  pub Among-append_left : {a : A} {xs : List A} (ys : List A) → Among a xs → Among a (xs ++ ys)
  Among-append_left ys here = here
  Among-append_left ys (there m) = there (Among-append_left ys m)

  pub Among-append_right : {a : A} (xs : List A) {ys : List A} → Among a ys → Among a (xs ++ ys)
  Among-append_right [] m = m
  Among-append_right (x ∷ xs) m = there (Among-append_right xs m)

  pub Among-append :
      {a : A} (xs : List A) {ys : List A} → Among a (xs ++ ys) → Among a xs ⊎ Among a ys
  Among-append [] m = inr m
  Among-append (x ∷ xs) m = elim (Among-cons m) [
    | inl same ↦ inl (subst (λ b. Among b (x ∷ xs)) (sym same) here)
    | inr later ↦ elim (Among-append xs later) [ inl l ↦ inl (there l) | inr r ↦ inr r ]
  ]

  -- The list from its end to its start.
  abbrev pub rev : List A → List A
  rev [] = []
  rev (x ∷ xs) = rev xs ++ x ∷ []

  pub length-rev : (xs : List A) → length (rev xs) ≡ length xs
  length-rev [] = refl
  length-rev (x ∷ xs) = omega (arith, length-rev xs, length-append (rev xs) (x ∷ []))

  pub Among-rev : {a : A} {xs : List A} → Among a xs → Among a (rev xs)
  Among-rev {xs = []} m = elim m [ ]
  Among-rev {xs = x ∷ xs} here = Among-append_right (rev xs) here
  Among-rev {xs = x ∷ xs} (there m) = Among-append_left (x ∷ []) (Among-rev m)

  pub Among-of_rev : {a : A} (xs : List A) → Among a (rev xs) → Among a xs
  Among-of_rev [] m = m
  Among-of_rev (x ∷ xs) m = elim (Among-append (rev xs) m) [
    | inl l ↦ there (Among-of_rev xs l)
    | inr r ↦ elim (Among-cons r) [
      | inl same ↦ subst (λ b. Among b (x ∷ xs)) (sym same) here
      | inr later ↦ absurd (Among-nil later)
    ]
  ]
