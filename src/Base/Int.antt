-- ===== src/Base/Int.antt =====
-- Signed integers over the native numbers, and the 64-bit words that stand for them (i64).
use Prim.Native.Nat.{ℕ, suc, ◌+◌, ◌-◌, ◌*◌, min, ◌%◌, ◌≤◌, ◌<◌}
use mathlib.Core.Path.{◌≡◌}
use mathlib.Core.Bool.{Bool}
use native.Mathlib.Omega.{arith}
use distributed_intranet.Base.Tests.{ltb, leb, if◌then◌else◌}

-- `negsuc n` is -(n + 1).
pub data ℤ : Type 0 where
  pos : ℕ → ℤ
  negsuc : ℕ → ℤ

abbrev pub pos_part : ℤ → ℕ
pos_part (pos n) = n
pos_part (negsuc n) = 0

abbrev pub neg_part : ℤ → ℕ
neg_part (pos n) = 0
neg_part (negsuc n) = suc n

abbrev pub sub_ℕ : ℕ → ℕ → ℤ
sub_ℕ a b = if leb b a then pos (a - b) else negsuc (b - a - 1)

infixl 65 ◌+ℤ◌ ◌-ℤ◌
infix 50 ◌≤ℤ◌
abbrev pub ◌+ℤ◌ : ℤ → ℤ → ℤ
a +ℤ b = sub_ℕ (pos_part a + pos_part b) (neg_part a + neg_part b)

abbrev pub ◌-ℤ◌ : ℤ → ℤ → ℤ
a -ℤ b = sub_ℕ (pos_part a + neg_part b) (neg_part a + pos_part b)

abbrev pub ◌≤ℤ◌ : ℤ → ℤ → Type 0
a ≤ℤ b = pos_part a + neg_part b ≤ pos_part b + neg_part a

abbrev pub leb_ℤ : ℤ → ℤ → Bool
leb_ℤ a b = leb (pos_part a + neg_part b) (pos_part b + neg_part a)

abbrev pub ltb_ℤ : ℤ → ℤ → Bool
ltb_ℤ a b = ltb (pos_part a + neg_part b) (pos_part b + neg_part a)

abbrev pub half_word : ℕ
half_word = 0x8000000000000000

abbrev pub word : ℕ
word = 0x10000000000000000

-- The two's complement pattern of an integer, and the integer of a pattern.
abbrev pub to_word : ℤ → ℕ
to_word (pos n) = n % word
to_word (negsuc n) = word - 1 - n % word

abbrev pub of_word : ℕ → ℤ
of_word w = if ltb w half_word then pos w else negsuc (word - 1 - w)

-- An i64 result that wraps round.
unfoldable pub wrap : ℤ → ℤ
wrap z = of_word (to_word z)

-- An i64 result that saturates at the bounds.
unfoldable pub saturate : ℤ → ℤ
saturate (pos n) = if ltb n half_word then pos n else pos (half_word - 1)
saturate (negsuc n) = if ltb n half_word then negsuc n else negsuc (half_word - 1)

abbrev pub IsI64 : ℤ → Type 0
IsI64 z = (pos_part z < half_word) × (neg_part z ≤ half_word)

pub wrap-IsI64 : (z : ℤ) → IsI64 (wrap z)
unfolding wrap
wrap-IsI64 z = ground arith

pub saturate-IsI64 : (z : ℤ) → IsI64 (saturate z)
unfolding saturate
saturate-IsI64 (pos n) = ground arith
saturate-IsI64 (negsuc n) = ground arith

-- Wrapping changes nothing that fits.
pub wrap_fits : (z : ℤ) → IsI64 z → wrap z ≡ z
unfolding wrap
wrap_fits (pos n) h = ground arith
wrap_fits (negsuc n) h = ground arith

-- Results on unsigned words that saturate at the top.
abbrev pub saturating_add : ℕ → ℕ → ℕ
saturating_add a b = min (a + b) (word - 1)

abbrev pub saturating_mul : ℕ → ℕ → ℕ
saturating_mul a b = min (a * b) (word - 1)
