-- ===== src/Crypto/Dec/Primitives.antt =====
-- Each primitive of `Enc` is read back by that of `Dec` of the same name.
use distributed_intranet.Base.{
  ℕ, ◌+◌, ◌≤◌, ◌<◌, ◌≡◌, refl, sym, ap, subst, Bool, true, false, Option, none, some, List, [], ◌∷◌,
  ◌++◌, arith,
}
use mathlib.Core.List.{append-nil, append_assoc}
use distributed_intranet.Base.Tests.{ltb, if◌then◌else◌}
use distributed_intranet.Base.Lists.{length, take, drop, length-append, All}
use distributed_intranet.Base.Int.{ℤ, pos, negsuc, IsI64, to_word, of_word}
use Prim.Native.String.{String}
use distributed_intranet.Base.Order.{=?_refl, text_ord}
use distributed_intranet.Base.Text.{Text, bytes_of}
use distributed_intranet.Crypto.Enc.{
  Enc, u8, u32, u64, i64, bool, variant, bytes, str, fixed, option, each, seq, be_bytes, domain,
}
use distributed_intranet.Crypto.Dec.{
  Decoder, Parsed, done, malformed, unexpected_end, ◌>>=◌, give, take_bytes, from_be, is_utf8,
  get_u8, get_u32, get_u64, get_i64, get_bool, get_variant, get_length, plausible, get_bytes,
  get_str, get_fixed, get_option, get_items, get_seq, get_domain, expect_domain, DecodeError,
  first_of, bool_of, option_of,
}
use distributed_intranet.Crypto.Dec.Numbers.{
  Fits, from_be-be_bytes, length-be_bytes, of_word-to_word, take-length, drop-length,
}
use distributed_intranet.Crypto.Dec.Sends.{Sends, joined, given, passed_check}

to_word-Fits : (z : ℤ) → Fits 8 (to_word z)
to_word-Fits (pos n) = omega arith
to_word-Fits (negsuc n) = omega arith

module _ {E : Type 0} {e : List ℕ} where
  take-Sends : (n : ℕ) (b : List ℕ) → length b ≡ n → Sends {E = E} e (take_bytes n) b (e ++ b)
  unfolding take_bytes
  take-Sends n b h = record {
    sent = b;
    appended = refl;
    reads = λ rest.
        let l = length-append b rest in
        let t = take-length b rest in
        let d = drop-length b rest in
        subst
          (λ m.
            if◌then◌else◌ {A = Parsed E (List ℕ)} (ltb (length (b ++ rest)) m)
              (malformed (unexpected_end m (length (b ++ rest))))
              (done (take m (b ++ rest)) (drop m (b ++ rest)))
            ≡ done b rest)
          h
          (let enough : ltb (length (b ++ rest)) (length b) ≡ false = ground arith in
            rw (enough, t, d) refl);
  }

  pub u8-Sends : (v : ℕ) → Sends {E = E} e get_u8 v (u8 v e)
  unfolding u8 get_u8 first_of
  u8-Sends v = joined _ (take-Sends 1 (v ∷ []) refl) (given v)

  pub variant-Sends : (v : ℕ) → Sends {E = E} e get_variant v (variant v e)
  unfolding variant get_variant
  variant-Sends v = u8-Sends v

  digits-Sends :
      {A : Type 0} (f : ℕ → A) (n v : ℕ)
      → Fits n v
      → Sends {E = E} e (take_bytes n >>= λ b. give (f (from_be 0 b))) (f v) (e ++ be_bytes n v)
  digits-Sends f n v h = joined _ (take-Sends n (be_bytes n v) (length-be_bytes n v)) (
      subst (λ w. Sends {E = E} (e ++ be_bytes n v) (give (f w)) (f v) (e ++ be_bytes n v))
        (sym (from_be-be_bytes n v h)) (given (f v)))

  pub u32-Sends : (v : ℕ) → Fits 4 v → Sends {E = E} e get_u32 v (u32 v e)
  unfolding u32 get_u32
  u32-Sends v h = digits-Sends (λ w. w) 4 v h

  pub fixed-Sends : (n v : ℕ) → Fits n v → Sends {E = E} e (get_fixed n) v (fixed n v e)
  unfolding fixed get_fixed
  fixed-Sends n v h = digits-Sends (λ w. w) n v h

  pub u64-Sends : (v : ℕ) → Fits 8 v → Sends {E = E} e get_u64 v (u64 v e)
  unfolding u64 get_u64
  u64-Sends v h = digits-Sends (λ w. w) 8 v h

  pub i64-Sends : (z : ℤ) → IsI64 z → Sends {E = E} e get_i64 z (i64 z e)
  unfolding i64 get_i64
  i64-Sends z h =
      subst (λ w. Sends {E = E} e get_i64 w (i64 z e)) (of_word-to_word z h)
        (digits-Sends of_word 8 (to_word z) (to_word-Fits z))

  pub bool-Sends : (b : Bool) → Sends {E = E} e get_bool b (bool b e)
  unfolding bool get_bool bool_of
  bool-Sends true = joined _ (u8-Sends 1) (given true)
  bool-Sends false = joined _ (u8-Sends 0) (given false)

  -- A length that is read is plausible, since at least that many bytes follow.
  length-Sends :
      {A : Type 0} (k : ℕ → Decoder E A) (n : ℕ) {x : A} {next : List ℕ}
      → Fits 8 n
      → length (u64 n e) + n ≤ length next
      → Sends {E = E} (u64 n e) (k n) x next
      → Sends {E = E} e (get_length >>= k) x next
  unfolding get_length plausible ◌>>=◌
  length-Sends k n {x} {next} h enough later =
      let head = u64-Sends n h in
      record {
        sent = head.sent ++ later.sent;
        appended = rw (later.appended, head.appended, append_assoc e head.sent later.sent) refl;
        reads = λ rest.
            let follow : n ≤ length (later.sent ++ rest) =
              let a = length-append later.sent rest in
              let b = length-append (u64 n e) later.sent in
              let c = ap length later.appended in omega arith in
            let fine : ltb (length (later.sent ++ rest)) n ≡ false = ground arith in
            rw
              (
                ◌>>=◌,
                append_assoc head.sent later.sent rest,
                head.reads (later.sent ++ rest),
                plausible,
                fine,
              )
              (later.reads rest);
      }

-- What the decoder of a type reads back of the values that `P` holds of.
abbrev pub Reads : {E A : Type 0} → (A → Type 0) → (A → Enc → Enc) → Decoder E A → Type 0
Reads {A} P f d = (x : A) → P x → (e : List ℕ) → Sends e d x (f x e)

-- A text that `str` can be asked to encode: valid UTF-8 of less than 2 ^ 64 bytes.
abbrev pub IsStr : Text → Type 0
IsStr s = Fits 8 (length s) × (is_utf8 s ≡ true)

module _ {E : Type 0} where
  pub bytes-Sends : Reads {E = E} (λ b. Fits 8 (length b)) bytes get_bytes
  unfolding bytes get_bytes
  bytes-Sends b h e =
      length-Sends take_bytes (length b) h (omega (arith, length-append (u64 (length b) e) b))
        (take-Sends (length b) b refl)

  pub str-Sends : Reads {E = E} IsStr str get_str
  unfolding str get_str
  str-Sends s h e = joined _ (bytes-Sends s h.0 e) (joined _ (passed_check _ h.1) (given s))

  module _ {A : Type 0} {P : A → Type 0} {f : A → Enc → Enc} {d : Decoder E A}
      (item : Reads P f d) where
    pub option-Sends :
        (o : Option A)
        → ((x : A) → o ≡ some x → P x)
        → {e : List ℕ} → Sends e (get_option d) o (option o f e)
    unfolding option get_option option_of
    option-Sends none h = joined _ (u8-Sends 0) (given none)
    option-Sends (some x) h =
        joined _ (u8-Sends 1) (joined _ (item x (h x refl) _) (given (some x)))

    each-Sends :
        (xs : List A) → All P xs → {e : List ℕ} → Sends e (get_items (length xs) d) xs (each xs f e)
    unfolding each get_items
    each-Sends [] h = given []
    each-Sends (x ∷ xs) h = joined _ (item x h.0 _) (joined _ (each-Sends xs h.1) (given (x ∷ xs)))

    -- A decoder that refuses the empty input has been sent something.
    sent_grows :
        (error : DecodeError) {x : A} (e : List ℕ) {next : List ℕ} (sent : List ℕ)
        → d [] ≡ malformed error
        → next ≡ e ++ sent
        → ((rest : List ℕ) → d (sent ++ rest) ≡ done x rest)
        → length e < length next
    sent_grows error e [] h a r = cc (h, r [])
    sent_grows error e (b ∷ sent) h a r = omega (arith, ap length a, length-append e (b ∷ sent))

    each_grows :
        (error : DecodeError) (xs : List A) (e : List ℕ)
        → d [] ≡ malformed error
        → All P xs
        → length e + length xs ≤ length (each xs f e)
    unfolding each
    each_grows error [] e h a = omega arith
    each_grows error (x ∷ xs) e h a =
        let s = item x a.0 e in
        omega
          (arith, sent_grows error e s.sent h s.appended s.reads, each_grows error xs (f x e) h a.1)

    pub seq-Sends :
        (error : DecodeError) (xs : List A) {e : List ℕ}
        → d [] ≡ malformed error
        → Fits 8 (length xs)
        → All P xs
        → Sends e (get_seq d) xs (seq xs f e)
    unfolding seq get_seq
    seq-Sends error xs {e} h l a =
        length-Sends (λ n. get_items n d) (length xs) l (each_grows error xs _ h a)
          (each-Sends xs a)

  pub domain-Sends :
      (tag : String) → IsStr (bytes_of tag) → Sends {E = E} [] (get_domain tag) tt (domain tag)
  unfolding domain get_domain expect_domain
  domain-Sends tag h =
      joined _ (str-Sends (bytes_of tag) h []) (passed_check _ (=?_refl (bytes_of tag)))

  pub whole :
      {A : Type 0} {d : Decoder E A} {x : A} {next : List ℕ}
      → Sends [] d x next
      → d next ≡ done x []
  whole {d} {x} s = rw s.appended (subst (λ l. d l ≡ done x []) (append-nil s.sent) (s.reads []))
