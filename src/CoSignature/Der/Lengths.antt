-- ===== src/CoSignature/Der/Lengths.antt =====
-- The canonical encoding of a DER length, which is all that the reader accepts.
use mathlib.Core.Path.{subst₂}
use keel_verifier.Base.{
  ℕ, zero, suc, ◌+◌, ◌*◌, ◌/◌, ◌%◌, ◌≤◌, ◌<◌, ◌≡◌, refl, sym, ◌∙◌, ap, [], ◌∷◌, ◌++◌, arith, length,
  drop, ltb, if◌then◌else◌, inl, inr, ◌⊎◌,
}
use keel_verifier.Hex.{Bytes}
use keel_verifier.Hex.RoundTrip.{AreBytes}
use keel_verifier.CoSignature.Reader.{ok, byte_at, slice, from_big, drop-cons, byte_at-lt}
use keel_verifier.CoSignature.Der.{read_der_long, read_der_length}

-- The shortest form of a length below 65536.
unfoldable pub der_length : ℕ → Bytes
der_length n =
    if ltb n 128 then n ∷ [] else if ltb n 256 then 129 ∷ n ∷ [] else 130 ∷ n / 256 ∷ n % 256 ∷ []

pub length-der_length : (n : ℕ) → 0 < length (der_length n)
unfolding der_length
length-der_length n = ground arith

module _ (n : ℕ) where
  pub der_length_short : n < 128 → der_length n ≡ n ∷ []
  unfolding der_length
  der_length_short h = ground arith

  pub der_length_one : 128 ≤ n → n < 256 → der_length n ≡ 129 ∷ n ∷ []
  unfolding der_length
  der_length_one h k = ground arith

  pub der_length_two : 256 ≤ n → der_length n ≡ 130 ∷ n / 256 ∷ n % 256 ∷ []
  unfolding der_length
  der_length_two h = ground arith

-- A length was read at `c`, and `e` is the position behind it.
pub record IsLengthAt (bs : Bytes) (c n e : ℕ) : Type 0 where
  pub small : n < 65536
  pub ends : e ≡ c + length (der_length n)
  pub bounded : e ≤ length bs
  pub bytes : drop c bs ≡ der_length n ++ drop e bs

module _ (bs : Bytes) (c : ℕ) where
  short_form : c < length bs → byte_at bs c < 128 → IsLengthAt bs c (byte_at bs c) (c + 1)
  short_form h k =
      let shape = der_length_short (byte_at bs c) k in
      record {
        small = omega arith;
        ends = rw shape (omega arith);
        bounded = omega arith;
        bytes = rw shape (drop-cons bs c (c + 1) h refl);
      }

  one_byte :
      c + 1 < length bs
      → byte_at bs c ≡ 129
      → 128 ≤ byte_at bs (c + 1)
      → byte_at bs (c + 1) < 256
      → IsLengthAt bs c (byte_at bs (c + 1)) (c + 1 + 1)
  one_byte h a lo hi =
      let shape = der_length_one (byte_at bs (c + 1)) lo hi in
      record {
        small = omega arith;
        ends = rw shape (omega arith);
        bounded = omega arith;
        bytes = rw shape (
            cc (
              a,
              drop-cons bs c (c + 1) (omega arith) refl,
              drop-cons bs (c + 1) (c + 1 + 1) h refl,
            ));
      }

  two_bytes :
      c + 2 < length bs
      → byte_at bs c ≡ 130
      → 0 < byte_at bs (c + 1)
      → byte_at bs (c + 1) < 256
      → byte_at bs (c + 2) < 256
      → IsLengthAt bs c (byte_at bs (c + 1) * 256 + byte_at bs (c + 2)) (c + 1 + 2)
  two_bytes h a lo hi hi' =
      let n = byte_at bs (c + 1) * 256 + byte_at bs (c + 2) in
      let shape = der_length_two n (omega arith) in
      let high : n / 256 ≡ byte_at bs (c + 1) = omega arith in
      let low : n % 256 ≡ byte_at bs (c + 2) = omega arith in
      record {
        small = omega arith;
        ends = rw shape (omega arith);
        bounded = omega arith;
        bytes = rw shape (
            cc (
              a,
              high,
              low,
              drop-cons bs c (c + 1) (omega arith) refl,
              drop-cons bs (c + 1) (c + 2) (omega arith) (omega arith),
              drop-cons bs (c + 2) (c + 1 + 2) h (omega arith),
            ));
      }

  -- The big-endian number of the bytes of a slice.
  pub from_big-slice_one : c < length bs → from_big (slice bs c 1) ≡ byte_at bs c
  from_big-slice_one h = rw (drop-cons bs c (c + 1) h refl) (omega arith)

  pub from_big-slice_two :
      c + 1 < length bs → from_big (slice bs c 2) ≡ byte_at bs c * 256 + byte_at bs (c + 1)
  from_big-slice_two h =
      rw (drop-cons bs c (c + 1) (omega arith) refl, drop-cons bs (c + 1) (c + 2) h (omega arith))
        (omega arith)

-- What a long form that is read has passed.
pub record LongForm (bs : Bytes) (cursor count n e : ℕ) : Type 0 where
  pub fits : cursor + count ≤ length bs
  pub leads : 0 < byte_at bs cursor
  pub long : 128 ≤ n
  pub number : from_big (slice bs cursor count) ≡ n
  pub ends : cursor + count ≡ e

read_der_long-LongForm :
    (bs : Bytes) (cursor count n e : ℕ)
    → read_der_long bs cursor count ≡ ok (n, e)
    → (0 < count) × (count ≤ 2) × LongForm bs cursor count n e
unfolding read_der_long
read_der_long-LongForm bs cursor count n e h = ground arith

read_der_length-cases :
    (bs : Bytes) (c n e : ℕ)
    → read_der_length bs c ≡ ok (n, e)
    → (c < length bs)
      × (((byte_at bs c < 128) × (byte_at bs c ≡ n) × (c + 1 ≡ e))
          ⊎ ((128 ≤ byte_at bs c) × (read_der_long bs (c + 1) (byte_at bs c % 128) ≡ ok (n, e))))
unfolding read_der_length
read_der_length-cases bs c n e h = ground arith

IsLengthAt-eq :
    (bs : Bytes) (c m n d e : ℕ) → m ≡ n → d ≡ e → IsLengthAt bs c m d → IsLengthAt bs c n e
IsLengthAt-eq bs c m n d e p q h = subst₂ (IsLengthAt bs c) p q h

module _ (bs : Bytes) (c : ℕ) (valid : AreBytes bs) where
  LongForm-IsLengthAt :
      (count n e : ℕ)
      → byte_at bs c ≡ 128 + count
      → 0 < count
      → count ≤ 2
      → LongForm bs (c + 1) count n e
      → IsLengthAt bs c n e
  LongForm-IsLengthAt zero n e a lo hi f = absurd (omega arith)
  LongForm-IsLengthAt (suc zero) n e a lo hi f =
      let number : byte_at bs (c + 1) ≡ n =
        sym (from_big-slice_one bs (c + 1) (omega (arith, f.fits))) ∙ f.number in
      IsLengthAt-eq bs c _ n _ e number f.ends (
        one_byte bs c (omega (arith, f.fits)) (omega arith) (omega (arith, f.long, number))
          (byte_at-lt bs (c + 1) valid))
  LongForm-IsLengthAt (suc (suc zero)) n e a lo hi f =
      let step : byte_at bs (c + 1 + 1) ≡ byte_at bs (c + 2) = ap (byte_at bs) (omega arith) in
      let number : byte_at bs (c + 1) * 256 + byte_at bs (c + 2) ≡ n =
        omega (arith, from_big-slice_two bs (c + 1) (omega (arith, f.fits)), f.number, step) in
      IsLengthAt-eq bs c _ n _ e number f.ends (
        two_bytes bs c (omega (arith, f.fits)) (omega arith) f.leads (byte_at-lt bs (c + 1) valid)
          (byte_at-lt bs (c + 2) valid))
  LongForm-IsLengthAt (suc (suc (suc k))) n e a lo hi f = absurd (omega arith)

  from_cases :
      (n e : ℕ)
      → c < length bs
      → ((byte_at bs c < 128) × (byte_at bs c ≡ n) × (c + 1 ≡ e))
        ⊎ ((128 ≤ byte_at bs c) × (read_der_long bs (c + 1) (byte_at bs c % 128) ≡ ok (n, e)))
      → IsLengthAt bs c n e
  from_cases n e h (inl (small, p, q)) = IsLengthAt-eq bs c _ n _ e p q (short_form bs c h small)
  from_cases n e h (inr (large, r)) =
      let (lo, hi, f) = read_der_long-LongForm bs (c + 1) (byte_at bs c % 128) n e r in
      LongForm-IsLengthAt (byte_at bs c % 128) n e (omega (arith, byte_at-lt bs c valid)) lo hi f

  -- A length that is read is below 65536, and its bytes are the shortest form of it.
  pub read_der_length-IsLengthAt :
      (n e : ℕ) → read_der_length bs c ≡ ok (n, e) → IsLengthAt bs c n e
  read_der_length-IsLengthAt n e h =
      let (inside, parts) = read_der_length-cases bs c n e h in from_cases n e inside parts
