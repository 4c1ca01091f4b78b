-- ===== src/Crypto/Dec/Sends.antt =====
-- What an encoder appends and a decoder reads back.
use distributed_intranet.Base.{ℕ, ◌≡◌, refl, Bool, true, false, List, [], ◌∷◌, ◌++◌}
use mathlib.Core.List.{append-nil, append_assoc}
use distributed_intranet.Crypto.Dec.{
  Parsed, done, malformed, refused, Decoder, ◌>>=◌, give, check, ◌>>◌, refuse, finish, then_read,
}

-- From the bytes `e` the encoder has gone on to `next`, and the decoder makes `x` of what it has
-- appended, whatever comes after.
pub record Sends {E A : Type 0} (e : List ℕ) (d : Decoder E A) (x : A) (next : List ℕ)
    : Type 0 where
  pub sent : List ℕ
  pub appended : next ≡ e ++ sent
  pub reads : (rest : List ℕ) → d (sent ++ rest) ≡ done x rest

pub joined :
    {E A B : Type 0} (k : A → Decoder E B) {e middle next : List ℕ} {d : Decoder E A} {x : A}
    {y : B}
    → Sends e d x middle
    → Sends middle (k x) y next
    → Sends e (d >>= k) y next
unfolding ◌>>=◌
joined k {e} {d} {x} {y} first second = record {
  sent = first.sent ++ second.sent;
  appended = rw (second.appended, first.appended, append_assoc e first.sent second.sent) refl;
  reads = λ rest.
      rw (◌>>=◌, append_assoc first.sent second.sent rest, first.reads (second.sent ++ rest))
        (second.reads rest);
}

pub given : {E A : Type 0} (x : A) {e : List ℕ} → Sends {E = E} e (give x) x e
unfolding give
given x {e} = record { sent = []; appended = rw (append-nil e) refl; reads = λ rest. refl }

pub passed_check :
    {E : Type 0} {test : Bool} (otherwise : Decoder E (Unit {0})) {e : List ℕ}
    → test ≡ true
    → Sends e (check test otherwise) tt e
unfolding check give
passed_check otherwise {e} h =
    rw h (record { sent = []; appended = rw (append-nil e) refl; reads = λ rest. refl })

-- A message under its domain tag, read to the end of what was appended, and what follows it then.
pub tagged :
    {E A B : Type 0} (k : A → Decoder E B) {middle next : List ℕ} {first : Decoder E (Unit {0})}
    {d : Decoder E A} {x : A}
    → Sends [] first tt middle
    → Sends middle d x next
    → (rest : List ℕ) → (first >> (d >>= k)) (next ++ rest) ≡ k x rest
unfolding ◌>>=◌
tagged k {first} {d} {x} tag body rest =
    rw
      (
        body.appended,
        tag.appended,
        append_assoc tag.sent body.sent rest,
        ◌>>=◌,
        tag.reads (body.sent ++ rest),
        body.reads rest,
      )
      refl

then_read-eq-done :
    {E A B : Type 0} (r : Parsed E A) (next : A → Decoder E B) {y : B} {rest : List ℕ}
    → then_read r next ≡ done y rest
    → (x : A) × ((middle : List ℕ) × ((r ≡ done x middle) × (next x middle ≡ done y rest)))
then_read-eq-done (done x middle) next h = (x, (middle, (refl, h)))
then_read-eq-done (malformed _) next h = cc
then_read-eq-done (refused _) next h = cc

-- A chain that gives a value has given one at its first step and then at the rest.
pub >>=-eq-done :
    {E A B : Type 0} (first : Decoder E A) (next : A → Decoder E B) (bytes : List ℕ) {y : B}
    {rest : List ℕ}
    → (first >>= next) bytes ≡ done y rest
    → (x : A) × ((middle : List ℕ) × ((first bytes ≡ done x middle)
          × (next x middle ≡ done y rest)))
unfolding ◌>>=◌
>>=-eq-done first next bytes h = then_read-eq-done (first bytes) next h

pub check-eq-done :
    {E : Type 0} (test : Bool) (e : E) (bytes : List ℕ) {rest : List ℕ}
    → check test (refuse e) bytes ≡ done tt rest
    → (test ≡ true) × (bytes ≡ rest)
unfolding check give refuse
check-eq-done true e bytes h = (refl, cc)
check-eq-done false e bytes h = cc

pub finish-eq-done :
    {E : Type 0} (bytes : List ℕ) {rest : List ℕ} → finish {E = E} bytes ≡ done tt rest → rest ≡ []
unfolding finish
finish-eq-done [] h = cc
finish-eq-done (b ∷ more) h = cc
