-- ===== src/CoSignature/Der.antt =====
-- DER lengths and integers, and the shape test of an ES256 signature.
pub mod Lengths
pub mod ReadBack
pub mod Integers
pub mod Signature
use keel_verifier.Base.{
  ℕ, zero, suc, ◌+◌, ◌%◌, Bool, true, false, ◌&&◌, ◌||◌, not, List, [], ◌∷◌, Option, none, some,
  length, leb, ltb, ◌==◌, if◌then◌else◌,
}
use keel_verifier.Hex.{Bytes}
use keel_verifier.CoSignature.Reader.{Read, ok, value_error, ◌>>=◌, byte_at, slice, from_big}

-- A long form has `count` bytes behind its first byte.
unfoldable pub read_der_long : Bytes → ℕ → ℕ → Read (ℕ × ℕ)
read_der_long bs cursor count =
    if count == 0 || ltb 2 count || ltb (length bs) (cursor + count) || byte_at bs cursor == 0
    then value_error
    else let n = from_big (slice bs cursor count) in
      if ltb n 128 then value_error else ok (n, cursor + count)

-- The length that stands at the cursor, and the position behind it.
unfoldable pub read_der_length : Bytes → ℕ → Read (ℕ × ℕ)
read_der_length bs cursor =
    if leb (length bs) cursor
    then value_error
    else let first = byte_at bs cursor in
      if ltb first 128 then ok (first, cursor + 1) else read_der_long bs (cursor + 1) (first % 128)

-- `data[i] & 0x80`
abbrev pub high_bit : ℕ → Bool
high_bit b = leb 128 (b % 256)

abbrev pub integer_body : Bytes → ℕ × ℕ → Read ℕ
integer_body bs (n, start) =
    if n == 0 || ltb (length bs) (start + n) || high_bit (byte_at bs start)
    then value_error
    else if ltb 1 n && byte_at bs start == 0 && not (high_bit (byte_at bs (start + 1)))
    then value_error
    else ok (start + n)

-- The position behind the integer that stands at the cursor.
unfoldable pub read_der_integer : Bytes → ℕ → Read ℕ
read_der_integer bs cursor =
    if leb (length bs) cursor || not (byte_at bs cursor == 2)
    then value_error
    else (read_der_length bs (cursor + 1) >>= integer_body bs)

abbrev pub ends_at : Bytes → Read ℕ → Bool
ends_at bs value_error = false
ends_at bs (ok n) = n == length bs

abbrev pub sequence_body : Bytes → Read (ℕ × ℕ) → Bool
sequence_body bs value_error = false
sequence_body bs (ok (n, start)) =
    if start + n == length bs
    then ends_at bs (read_der_integer bs start >>= read_der_integer bs)
    else false

unfoldable pub valid_es256_der : Bytes → Bool
valid_es256_der [] = false
valid_es256_der (b ∷ bs) =
    if b == 48 then sequence_body (b ∷ bs) (read_der_length (b ∷ bs) 1) else false
