-- ===== src/Crypto/Dec/Numbers.antt =====
-- Big-endian digits read back.
use distributed_intranet.Base.{
  ℕ, zero, suc, ◌+◌, ◌*◌, ◌/◌, ◌%◌, ◌^◌, ◌<◌, ◌≡◌, refl, ◌∙◌, ap, List, [], ◌∷◌, ◌++◌, arith,
}
use native.Mathlib.Nat.{pow-suc}
use distributed_intranet.Base.Lists.{length, take, drop, length-append}
use distributed_intranet.Base.Int.{ℤ, to_word, of_word, IsI64, wrap, wrap_fits}
use distributed_intranet.Crypto.Enc.{be_bytes}
use distributed_intranet.Crypto.Dec.{from_be}

from_be-append :
    (high : ℕ) (xs ys : List ℕ) → from_be high (xs ++ ys) ≡ from_be (from_be high xs) ys
unfolding from_be
from_be-append high [] ys = refl
from_be-append high (x ∷ xs) ys = from_be-append (high * 256 + x) xs ys

-- The value of `n` bytes.
abbrev pub Fits : ℕ → ℕ → Type 0
Fits n v = v < 256 ^ n

Fits-div : (n v : ℕ) → Fits (suc n) v → Fits n (v / 256)
Fits-div n v h = omega (arith, pow-suc 256 n)

pub from_be-be_bytes : (n v : ℕ) → Fits n v → from_be 0 (be_bytes n v) ≡ v
unfolding from_be be_bytes
from_be-be_bytes zero v h = ground arith
from_be-be_bytes (suc n) v h =
    from_be-append 0 (be_bytes n (v / 256)) (v % 256 ∷ [])
    ∙ (let ih = from_be-be_bytes n (v / 256) (Fits-div n v h) in omega arith)

pub length-be_bytes : (n v : ℕ) → length (be_bytes n v) ≡ n
unfolding be_bytes
length-be_bytes zero v = refl
length-be_bytes (suc n) v =
    omega (arith, length-append (be_bytes n (v / 256)) (v % 256 ∷ []), length-be_bytes n (v / 256))

pub of_word-to_word : (z : ℤ) → IsI64 z → of_word (to_word z) ≡ z
unfolding wrap
of_word-to_word z h = wrap_fits z h

pub take-length : (xs ys : List ℕ) → take (length xs) (xs ++ ys) ≡ xs
take-length [] ys = refl
take-length (x ∷ xs) ys = ap (λ l. x ∷ l) (take-length xs ys)

pub drop-length : (xs ys : List ℕ) → drop (length xs) (xs ++ ys) ≡ ys
drop-length [] ys = refl
drop-length (x ∷ xs) ys = drop-length xs ys
