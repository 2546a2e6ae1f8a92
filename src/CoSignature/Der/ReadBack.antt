-- ===== src/CoSignature/Der/ReadBack.antt =====
-- The shortest form of a DER length is read back.
use keel_verifier.Base.{
  ℕ, ◌+◌, ◌/◌, ◌%◌, ◌≤◌, ◌<◌, ◌≡◌, refl, ◌∙◌, ◌∷◌, ◌++◌, arith, length, drop, ltb, Bool-cases, inl,
  inr, ltb→lt,
}
use keel_verifier.Hex.{Bytes}
use keel_verifier.CoSignature.Reader.{ok, byte_at, Shows-drop}
use keel_verifier.CoSignature.Der.{read_der_long, read_der_length}
use keel_verifier.CoSignature.Der.Lengths.{
  der_length, der_length_short, der_length_one, der_length_two, LongForm, from_big-slice_one,
  from_big-slice_two,
}

LongForm-read_der_long :
    (bs : Bytes) (cursor count n e : ℕ)
    → 0 < count
    → count ≤ 2
    → LongForm bs cursor count n e
    → read_der_long bs cursor count ≡ ok (n, e)
unfolding read_der_long
LongForm-read_der_long bs cursor count n e lo hi f = ground arith

-- A first byte of 128 + count hands over to the long form.
read_der_length-long :
    (bs : Bytes) (c count : ℕ)
    → c < length bs
    → count < 128
    → byte_at bs c ≡ 128 + count
    → read_der_length bs c ≡ read_der_long bs (c + 1) count
unfolding read_der_length
read_der_length-long bs c count h k e =
    let m : byte_at bs c % 128 ≡ count = omega arith in ground (arith, m)

module _ (bs : Bytes) (c n : ℕ) (w : Bytes) where
  reads_short : n < 128 → drop c bs ≡ n ∷ w → read_der_length bs c ≡ ok (n, c + 1)
  unfolding read_der_length
  reads_short h d = let s = Shows-drop bs c n w d in ground (arith, s.inside, s.byte)

  reads_one : 128 ≤ n → n < 256 → drop c bs ≡ 129 ∷ n ∷ w → read_der_length bs c ≡ ok (n, c + 2)
  reads_one lo hi d =
      let s = Shows-drop bs c 129 (n ∷ w) d in
      let t = Shows-drop bs (c + 1) n w (s.rest (c + 1) refl) in
      read_der_length-long bs c 1 s.inside (omega arith) s.byte
      ∙ LongForm-read_der_long bs (c + 1) 1 n (c + 2) (omega arith) (omega arith) (record {
        fits = omega (arith, t.inside);
        leads = omega (arith, t.byte);
        long = lo;
        number = from_big-slice_one bs (c + 1) t.inside ∙ t.byte;
        ends = omega arith;
      })

  reads_two :
      256 ≤ n
      → n < 65536
      → drop c bs ≡ 130 ∷ n / 256 ∷ n % 256 ∷ w
      → read_der_length bs c ≡ ok (n, c + 3)
  reads_two lo hi d =
      let s = Shows-drop bs c 130 _ d in
      let t = Shows-drop bs (c + 1) (n / 256) _ (s.rest (c + 1) refl) in
      let u = Shows-drop bs (c + 1 + 1) (n % 256) w (t.rest (c + 1 + 1) refl) in
      read_der_length-long bs c 2 s.inside (omega arith) s.byte
      ∙ LongForm-read_der_long bs (c + 1) 2 n (c + 3) (omega arith) (omega arith) (record {
        fits = omega (arith, u.inside);
        leads = omega (arith, t.byte);
        long = omega arith;
        number = from_big-slice_two bs (c + 1) u.inside ∙ omega (arith, t.byte, u.byte);
        ends = omega arith;
      })

  -- The shortest form of a length below 65536 is read back, wherever it stands.
  pub read_der_length-der_length :
      n < 65536
      → drop c bs ≡ der_length n ++ w
      → read_der_length bs c ≡ ok (n, c + length (der_length n))
  read_der_length-der_length h d = elim (Bool-cases (ltb n 128)) [
    | inl short ↦
        let shape = der_length_short n (ltb→lt _ _ short) in
        rw shape (reads_short (ltb→lt _ _ short) (rw shape at d))
    | inr long ↦ elim (Bool-cases (ltb n 256)) [
      | inl one ↦
          let shape = der_length_one n (ground arith) (ltb→lt _ _ one) in
          rw shape (reads_one (ground arith) (ltb→lt _ _ one) (rw shape at d))
      | inr two ↦
          let shape = der_length_two n (ground arith) in
          rw shape (reads_two (ground arith) h (rw shape at d))
    ]
  ]
