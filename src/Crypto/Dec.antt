-- ===== src/Crypto/Dec.antt =====
-- crates/intranet-crypto/src/dec.rs: the reader `Dec`. A decoder takes the bytes that remain and
-- gives a value with the bytes after it, so `remaining` is their number. An error of the caller's
-- type `E: From<DecodeError>` is one of `malformed` and its own.
pub mod Sends
pub mod Numbers
pub mod Primitives
use Prim.Native.String.{String}
use distributed_intranet.Base.{
  ℕ, zero, suc, ◌+◌, ◌*◌, Bool, true, false, not, ◌&&◌, ◌||◌, Option, none, some, List, [], ◌∷◌,
}
use distributed_intranet.Base.Tests.{ltb, leb, ◌==◌, if◌then◌else◌}
use distributed_intranet.Base.Lists.{length, take, drop}
use distributed_intranet.Base.Int.{ℤ, of_word}
use distributed_intranet.Base.Order.{◌=?◌, text_ord}
use distributed_intranet.Base.Text.{Text, bytes_of}

pub data DecodeError : Type 0 where
  unexpected_end : (needed remaining : ℕ) → DecodeError
  implausible_length : (claimed remaining : ℕ) → DecodeError
  unknown_variant : (discriminant : ℕ) → DecodeError
  invalid_bool : (byte : ℕ) → DecodeError
  invalid_utf8 : DecodeError
  wrong_domain : (expected : Text) → DecodeError
  trailing_bytes : (remaining : ℕ) → DecodeError

pub data Parsed (E A : Type 0) : Type 0 where
  done : A → List ℕ → Parsed E A
  malformed : DecodeError → Parsed E A
  refused : E → Parsed E A

abbrev pub Decoder : Type 0 → Type 0 → Type 0
Decoder E A = List ℕ → Parsed E A

module _ {E A B : Type 0} where
  abbrev pub then_read : Parsed E A → (A → Decoder E B) → Parsed E B
  then_read (done value rest) next = next value rest
  then_read (malformed e) next = malformed e
  then_read (refused e) next = refused e

  infixl 5 ◌>>=◌
  unfoldable pub ◌>>=◌ : Decoder E A → (A → Decoder E B) → Decoder E B
  ◌>>=◌ first next bytes = then_read (first bytes) next

module _ {E A : Type 0} where
  -- `Ok(value)`
  unfoldable pub give : A → Decoder E A
  give value bytes = done value bytes

  unfoldable pub malform : DecodeError → Decoder E A
  malform e bytes = malformed e

  unfoldable pub refuse : E → Decoder E A
  refuse e bytes = refused e

module _ {E : Type 0} where
  infixl 5 ◌>>◌
  abbrev pub ◌>>◌ : {A : Type 0} → Decoder E (Unit {0}) → Decoder E A → Decoder E A
  first >> next = first >>= λ _. next

  -- `if !test { return Err(e) }`
  unfoldable pub check : Bool → Decoder E (Unit {0}) → Decoder E (Unit {0})
  unfolding give
  check test otherwise = if test then give tt else otherwise

  unfoldable pub take_bytes : ℕ → Decoder E (List ℕ)
  take_bytes n bytes =
      if ltb (length bytes) n
      then malformed (unexpected_end n (length bytes))
      else done (take n bytes) (drop n bytes)

-- `from_be_bytes`, after the digits so far
unfoldable pub from_be : ℕ → List ℕ → ℕ
from_be high [] = high
from_be high (b ∷ rest) = from_be (high * 256 + b) rest

continuation : ℕ → Bool
continuation b = leb 0x80 b && leb b 0xBF

-- The leading bytes of a character of three and of four bytes, with the second byte that each
-- allows.
three : ℕ → ℕ → Bool
unfolding continuation
three a b =
    (a == 0xE0 && (leb 0xA0 b && leb b 0xBF))
    || ((leb 0xE1 a && (leb a 0xEC && continuation b))
        || ((a == 0xED && (leb 0x80 b && leb b 0x9F))
            || (leb 0xEE a && (leb a 0xEF && continuation b))))

four : ℕ → ℕ → Bool
unfolding continuation
four a b =
    (a == 0xF0 && (leb 0x90 b && leb b 0xBF))
    || ((leb 0xF1 a && (leb a 0xF3 && continuation b)) || (a == 0xF4 && (leb 0x80 b && leb b 0x8F)))

-- `std::str::from_utf8`: whether every character is well formed and none is cut short.
unfoldable pub is_utf8 : List ℕ → Bool
unfolding continuation three four
is_utf8 [] = true
is_utf8 (a ∷ []) = ltb a 0x80
is_utf8 (a ∷ b ∷ []) = (ltb a 0x80 && ltb b 0x80) || (leb 0xC2 a && (leb a 0xDF && continuation b))
is_utf8 (a ∷ b ∷ c ∷ []) =
    (ltb a 0x80 && is_utf8 (b ∷ c ∷ []))
    || ((leb 0xC2 a && (leb a 0xDF && (continuation b && is_utf8 (c ∷ []))))
        || (three a b && continuation c))
is_utf8 (a ∷ b ∷ c ∷ d ∷ rest) =
    (ltb a 0x80 && is_utf8 (b ∷ c ∷ d ∷ rest))
    || ((leb 0xC2 a && (leb a 0xDF && (continuation b && is_utf8 (c ∷ d ∷ rest))))
        || ((three a b && (continuation c && is_utf8 (d ∷ rest)))
            || (four a b && (continuation c && (continuation d && is_utf8 rest)))))

module _ {E : Type 0} where
  unfoldable pub first_of : List ℕ → Decoder E ℕ
  unfolding give malform
  first_of [] = malform (unexpected_end 1 0)
  first_of (b ∷ _) = give b

  unfoldable pub get_u8 : Decoder E ℕ
  unfolding take_bytes first_of ◌>>=◌
  get_u8 = do b ← take_bytes 1; first_of b

  unfoldable pub get_u32 : Decoder E ℕ
  unfolding take_bytes from_be ◌>>=◌ give
  get_u32 = do b ← take_bytes 4; give (from_be 0 b)

  unfoldable pub get_u64 : Decoder E ℕ
  unfolding take_bytes from_be ◌>>=◌ give
  get_u64 = do b ← take_bytes 8; give (from_be 0 b)

  unfoldable pub get_i64 : Decoder E ℤ
  unfolding take_bytes from_be ◌>>=◌ give
  get_i64 = do b ← take_bytes 8; give (of_word (from_be 0 b))

  unfoldable pub bool_of : ℕ → Decoder E Bool
  unfolding give malform
  bool_of b = if b == 0 then give false else if b == 1 then give true else malform (invalid_bool b)

  unfoldable pub get_bool : Decoder E Bool
  unfolding get_u8 bool_of ◌>>=◌
  get_bool = do b ← get_u8; bool_of b

  -- `variant`
  unfoldable pub get_variant : Decoder E ℕ
  unfolding get_u8
  get_variant = get_u8

  unfoldable pub plausible : ℕ → Decoder E ℕ
  plausible claimed bytes =
      if ltb (length bytes) claimed
      then malformed (implausible_length claimed (length bytes))
      else done claimed bytes

  unfoldable pub get_length : Decoder E ℕ
  unfolding get_u64 plausible ◌>>=◌
  get_length = do claimed ← get_u64; plausible claimed

  unfoldable pub get_bytes : Decoder E (List ℕ)
  unfolding get_length take_bytes ◌>>=◌
  get_bytes = do n ← get_length; take_bytes n

  unfoldable pub get_str : Decoder E Text
  unfolding get_bytes is_utf8 check ◌>>=◌ give malform
  get_str = do b ← get_bytes; check (is_utf8 b) (malform invalid_utf8); give b

  -- A byte array, as the number that its bytes spell.
  unfoldable pub get_fixed : ℕ → Decoder E ℕ
  unfolding take_bytes from_be ◌>>=◌ give
  get_fixed n = do b ← take_bytes n; give (from_be 0 b)

  unfoldable pub option_of : {A : Type 0} → Decoder E A → ℕ → Decoder E (Option A)
  unfolding give malform ◌>>=◌
  option_of f b =
      if b == 0
      then give none
      else if b == 1
      then (do x ← f; give (some x))
      else malform (invalid_bool b)

  unfoldable pub get_option : {A : Type 0} → Decoder E A → Decoder E (Option A)
  unfolding get_u8 option_of ◌>>=◌
  get_option f = do b ← get_u8; option_of f b

  unfoldable pub get_items : {A : Type 0} → ℕ → Decoder E A → Decoder E (List A)
  unfolding give ◌>>=◌
  get_items zero f = give []
  get_items (suc n) f = do x ← f; xs ← get_items n f; give (x ∷ xs)

  unfoldable pub get_seq : {A : Type 0} → Decoder E A → Decoder E (List A)
  unfolding get_length get_items ◌>>=◌
  get_seq f = do n ← get_length; get_items n f

  unfoldable pub expect_domain : Text → Text → Decoder E (Unit {0})
  unfolding check malform
  expect_domain tag found = check (found =? tag) (malform (wrong_domain tag))

  unfoldable pub get_domain : String → Decoder E (Unit {0})
  unfolding get_str expect_domain ◌>>=◌
  get_domain tag = do s ← get_str; expect_domain (bytes_of tag) s

  unfoldable pub finish : Decoder E (Unit {0})
  finish [] = done tt []
  finish (b ∷ rest) = malformed (trailing_bytes (length (b ∷ rest)))

  -- `d.finish()?; Ok(value)`
  unfoldable pub close : {A : Type 0} → A → Decoder E A
  unfolding finish give ◌>>=◌
  close value = do finish; give value

  -- A message within a message: its answer, with the outer message where it was.
  unfoldable pub nested : {A : Type 0} → Parsed E A → Decoder E A
  nested (done value _) bytes = done value bytes
  nested (malformed e) bytes = malformed e
  nested (refused e) bytes = refused e
