-- ===== src/Crypto/Enc.antt =====
-- crates/intranet-crypto/src/enc.rs: the buffer `Enc` and what appends to it.
use Prim.Native.String.{String}
use distributed_intranet.Base.{
  ℕ, zero, suc, ◌/◌, ◌%◌, Bool, true, false, Option, none, some, List, [], ◌∷◌, ◌++◌,
}
use distributed_intranet.Base.Lists.{length}
use distributed_intranet.Base.Int.{ℤ, to_word}
use distributed_intranet.Base.Text.{Text, bytes_of}

-- The bytes so far.
abbrev pub Enc : Type 0
Enc = List ℕ

-- A value is handed to each appender in turn, as the source chains its calls.
infixl 20 ◌▸◌
abbrev pub ◌▸◌ : Enc → (Enc → Enc) → Enc
e ▸ append = append e

-- `to_be_bytes` of an n-byte number
unfoldable pub be_bytes : ℕ → ℕ → List ℕ
be_bytes zero v = []
be_bytes (suc n) v = be_bytes n (v / 256) ++ (v % 256) ∷ []

unfoldable pub u8 : ℕ → Enc → Enc
u8 v e = e ++ v ∷ []

unfoldable pub u32 : ℕ → Enc → Enc
unfolding be_bytes
u32 v e = e ++ be_bytes 4 v

unfoldable pub u64 : ℕ → Enc → Enc
unfolding be_bytes
u64 v e = e ++ be_bytes 8 v

unfoldable pub i64 : ℤ → Enc → Enc
unfolding be_bytes
i64 v e = e ++ be_bytes 8 (to_word v)

unfoldable pub bool : Bool → Enc → Enc
unfolding u8
bool true e = u8 1 e
bool false e = u8 0 e

unfoldable pub variant : ℕ → Enc → Enc
unfolding u8
variant discriminant e = u8 discriminant e

unfoldable pub bytes : List ℕ → Enc → Enc
unfolding u64
bytes b e = u64 (length b) e ++ b

unfoldable pub str : Text → Enc → Enc
unfolding bytes
str s e = bytes s e

-- A byte array of n bytes, given as a number.
unfoldable pub fixed : ℕ → ℕ → Enc → Enc
unfolding be_bytes
fixed n b e = e ++ be_bytes n b

module _ {ℓ} {T : Type ℓ} where
  unfoldable pub option : Option T → (T → Enc → Enc) → Enc → Enc
  unfolding u8
  option none f e = u8 0 e
  option (some inner) f e = f inner (u8 1 e)

  unfoldable pub each : List T → (T → Enc → Enc) → Enc → Enc
  each [] f e = e
  each (x ∷ xs) f e = each xs f (f x e)

  unfoldable pub seq : List T → (T → Enc → Enc) → Enc → Enc
  unfolding u64 each
  seq items f e = each items f (u64 (length items) e)

unfoldable pub domain : String → Enc
unfolding str
domain tag = str (bytes_of tag) []
