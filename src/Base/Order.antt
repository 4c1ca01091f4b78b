-- ===== src/Base/Order.antt =====
-- Total orders on keys: numbers, byte strings, and the counter ids that only grow.
use Prim.Native.Nat.{ℕ, compare, Ordering}
use mathlib.Core.Path.{◌≡◌, refl, ap}
use mathlib.Core.Bool.{Bool, true, false}
use mathlib.Core.List.{List, [], ◌∷◌}
use native.Mathlib.Omega.{arith}

-- `derive(Ord)`: a comparison that is `eq` at equal keys alone.
pub record Ord {ℓ} (K : Type ℓ) : Type ℓ where
  pub cmp : K → K → Ordering
  pub cmp_refl : (a : K) → cmp a a ≡ Ordering.eq
  pub eq_of_cmp : (a b : K) → cmp a b ≡ Ordering.eq → a ≡ b

abbrev pub is_eq : Ordering → Bool
is_eq Ordering.eq = true
is_eq _ = false

infix 50 ◌=?◌
abbrev pub ◌=?◌ {ℓ} : {K : Type ℓ} ⦃o : Ord K⦄ → K → K → Bool
◌=?◌ ⦃o⦄ a b = is_eq (o.cmp a b)

module _ {ℓ} {K : Type ℓ} ⦃o : Ord K⦄ where
  pub =?_refl : (a : K) → (a =? a) ≡ true
  =?_refl a = ap is_eq (o.cmp_refl a)

  pub eq_of_=? : (a b : K) → (a =? b) ≡ true → a ≡ b
  eq_of_=? a b h = o.eq_of_cmp a b (ground arith)

pub nat_refl : (a : ℕ) → compare a a ≡ Ordering.eq
nat_refl a = ground arith

pub nat_eq : (a b : ℕ) → compare a b ≡ Ordering.eq → a ≡ b
nat_eq a b h = ground arith

instance abbrev pub nat_ord : Ord ℕ
nat_ord = record { cmp = compare; cmp_refl = nat_refl; eq_of_cmp = nat_eq }

-- The first difference decides; a proper prefix is smaller.
abbrev pub lex : List ℕ → List ℕ → Ordering
lex [] [] = Ordering.eq
lex [] (_ ∷ _) = Ordering.lt
lex (_ ∷ _) [] = Ordering.gt
lex (a ∷ s) (b ∷ t) =
    let rest = lex s t in
    elim (compare a b) [
      | Ordering.lt ↦ Ordering.lt
      | Ordering.gt ↦ Ordering.gt
      | Ordering.eq ↦ rest
    ]

pub lex_refl : (s : List ℕ) → lex s s ≡ Ordering.eq
lex_refl [] = refl
lex_refl (a ∷ s) = ground (arith, lex_refl s)

pub lex_eq : (s t : List ℕ) → lex s t ≡ Ordering.eq → s ≡ t
lex_eq [] [] h = refl
lex_eq [] (b ∷ t) h = cc
lex_eq (a ∷ s) [] h = cc
lex_eq (a ∷ s) (b ∷ t) h = ground (arith, lex_eq s t)

instance abbrev pub text_ord : Ord (List ℕ)
text_ord = record { cmp = lex; cmp_refl = lex_refl; eq_of_cmp = lex_eq }
