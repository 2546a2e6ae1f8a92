-- ===== src/CoSignature/Der/Integers.antt =====
-- The canonical encoding of a DER integer without a sign, which is all that the reader accepts.
use keel_verifier.Base.{
  ℕ, ◌+◌, ◌%◌, ◌≤◌, ◌<◌, ◌≡◌, refl, sym, ◌∙◌, ◌∷◌, ◌++◌, arith, length, drop, length-append,
  append_assoc,
}
use keel_verifier.Hex.{Bytes}
use keel_verifier.Hex.RoundTrip.{AreBytes}
use keel_verifier.CoSignature.Reader.{
  ok, ◌>>=◌, >>=-eq-ok, byte_at, slice, drop-cons, Shows-drop, byte_at-lt, byte_at-slice, drop_past,
  fits_past, byte_ahead, drop-slice, length-slice,
}
use keel_verifier.CoSignature.Der.{read_der_length, integer_body, read_der_integer}
use keel_verifier.CoSignature.Der.Lengths.{
  der_length, length-der_length, IsLengthAt, read_der_length-IsLengthAt,
}
use keel_verifier.CoSignature.Der.ReadBack.{read_der_length-der_length}

-- The body of an integer from zero on in its shortest form: no sign bit, and no needless zero in front.
pub record IsInteger (r : Bytes) : Type 0 where
  pub nonempty : 0 < length r
  pub short : length r < 65536
  pub unsigned : byte_at r 0 < 128
  pub minimal : 1 < length r → byte_at r 0 ≡ 0 → 128 ≤ byte_at r 1

abbrev pub der_integer : Bytes → Bytes
der_integer r = 2 ∷ (der_length (length r) ++ r)

-- The checks of the body of an integer of `n` bytes at `s`.
pub record IsBody (bs : Bytes) (n s e : ℕ) : Type 0 where
  pub nonempty : 0 < n
  pub fits : s + n ≤ length bs
  pub unsigned : byte_at bs s % 256 < 128
  pub minimal : 1 < n → byte_at bs s ≡ 0 → 128 ≤ byte_at bs (s + 1) % 256
  pub ends : s + n ≡ e

integer_body-IsBody : (bs : Bytes) (n s e : ℕ) → integer_body bs (n, s) ≡ ok e → IsBody bs n s e
integer_body-IsBody bs n s e h = record {
  nonempty = ground arith;
  fits = ground arith;
  unsigned = ground arith;
  minimal = λ long zero_first. ground arith;
  ends = ground arith;
}

read_der_integer-cases :
    (bs : Bytes) (c e : ℕ)
    → read_der_integer bs c ≡ ok e
    → (c < length bs)
      × (byte_at bs c ≡ 2)
      × ((read_der_length bs (c + 1) >>= integer_body bs) ≡ ok e)
unfolding read_der_integer
read_der_integer-cases bs c e h = ground arith

-- An integer was read at `c`, with the body `r`, and `e` is the position behind it.
pub record IsIntegerAt (bs : Bytes) (c e : ℕ) (r : Bytes) : Type 0 where
  pub integer : IsInteger r
  pub bounded : e ≤ length bs
  pub bytes : drop c bs ≡ der_integer r ++ drop e bs

module _ (bs : Bytes) (c : ℕ) (valid : AreBytes bs) where
  body-IsInteger : (n s e : ℕ) → n < 65536 → IsBody bs n s e → IsInteger (slice bs s n)
  body-IsInteger n s e small b =
      let n' : length (slice bs s n) ≡ n = length-slice bs s n b.fits in
      let first : byte_at (slice bs s n) 0 ≡ byte_at bs s =
        byte_at-slice bs s n 0 s b.nonempty (omega arith) in
      record {
        nonempty = omega (arith, b.nonempty, n');
        short = omega (arith, n');
        unsigned = omega (arith, first, b.unsigned, byte_at-lt bs s valid);
        minimal = λ long zero_first.
            let more : 1 < n = omega (arith, n') in
            omega (
              arith,
              byte_at-slice bs s n 1 (s + 1) more refl,
              b.minimal more (sym first ∙ zero_first),
              byte_at-lt bs (s + 1) valid,
            );
      }

  read-IsIntegerAt :
      (n s e : ℕ)
      → c < length bs
      → byte_at bs c ≡ 2
      → IsLengthAt bs (c + 1) n s
      → IsBody bs n s e
      → IsIntegerAt bs c e (slice bs s n)
  read-IsIntegerAt n s e h two l b =
      let size : length (slice bs s n) ≡ n = length-slice bs s n b.fits in
      record {
        integer = body-IsInteger n s e l.small b;
        bounded = omega (arith, b.fits, b.ends);
        bytes = cc (
          drop-cons bs c (c + 1) h refl,
          two,
          l.bytes,
          drop-slice bs s n e (sym b.ends),
          size,
          append_assoc (der_length n) (slice bs s n) (drop e bs),
        );
      }

  -- An integer that is read is not negative, in its shortest form, and its bytes are the encoding of it.
  pub read_der_integer-IsIntegerAt :
      (e : ℕ) → read_der_integer bs c ≡ ok e → (r : Bytes) × IsIntegerAt bs c e r
  read_der_integer-IsIntegerAt e h =
      let (inside, two, rest) = read_der_integer-cases bs c e h in
      let ((n, s), l, b) = >>=-eq-ok (read_der_length bs (c + 1)) (integer_body bs) rest in
      (
        slice bs s n,
        read-IsIntegerAt n s e inside two (read_der_length-IsLengthAt bs (c + 1) valid n s l)
            (integer_body-IsBody bs n s e b),
      )

IsBody-integer_body : (bs : Bytes) (n s e : ℕ) → IsBody bs n s e → integer_body bs (n, s) ≡ ok e
IsBody-integer_body bs n s e b = ground (arith, b.nonempty, b.fits, b.unsigned, b.minimal, b.ends)

module _ (bs : Bytes) (c : ℕ) (r w : Bytes) (valid : AreBytes bs) (i : IsInteger r)
    (d : drop c bs ≡ der_integer r ++ w) where
  abbrev start : ℕ
  start = c + 1 + length (der_length (length r))

  after_tag : drop (c + 1) bs ≡ der_length (length r) ++ (r ++ w)
  after_tag = (Shows-drop bs c 2 _ d).rest (c + 1) refl ∙ append_assoc (der_length (length r)) r w

  at_body : drop start bs ≡ r ++ w
  at_body =
      drop_past bs (c + 1) start (der_length (length r)) (r ++ w) after_tag refl
        (length-der_length (length r))

  IsBody-slice : IsBody bs (length r) start (c + length (der_integer r))
  IsBody-slice =
      let first : byte_at bs start ≡ byte_at r 0 =
        byte_ahead bs start (start + length r) r w at_body refl i.nonempty 0 start i.nonempty
          (omega arith) in
      record {
        nonempty = i.nonempty;
        fits = fits_past bs start (start + length r) r w at_body refl i.nonempty;
        unsigned = omega (arith, first, i.unsigned);
        minimal = λ long zero_first. omega (
          arith,
          byte_ahead bs start (start + length r) r w at_body refl i.nonempty 1 (start + 1) long
              refl,
          i.minimal long (sym first ∙ zero_first),
          byte_at-lt bs (start + 1) valid,
        );
        ends = omega (arith, length-append (der_length (length r)) r);
      }

  -- The encoding of a non-negative integer in its shortest form is read, wherever it stands.
  pub read_der_integer-der_integer : read_der_integer bs c ≡ ok (c + length (der_integer r))
  unfolding read_der_integer
  read_der_integer-der_integer =
      let s = Shows-drop bs c 2 _ d in
      let l = read_der_length-der_length bs (c + 1) (length r) (r ++ w) i.short after_tag in
      let b = IsBody-integer_body bs (length r) start _ IsBody-slice in
      ground (arith, s.inside, s.byte, l, b)
