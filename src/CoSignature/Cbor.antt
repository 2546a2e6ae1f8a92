-- ===== src/CoSignature/Cbor.antt =====
-- The CBOR reader of a COSE key: unsigned and negative integers, byte strings and maps, in their
-- shortest forms. Python raises a TypeError for a map as a map key, which has no hash.
pub mod Fuel
use keel_verifier.Base.{
  ℕ, zero, suc, ◌+◌, ◌/◌, ◌%◌, Bool, true, false, ◌&&◌, ◌||◌, List, [], ◌∷◌, Option, none, some,
  length, leb, ltb, ◌==◌, if◌then◌else◌, ℤ, pos, negsuc, eqz,
}
use keel_verifier.Hex.{Bytes}
use keel_verifier.CoSignature.Reader.{byte_at, slice, from_big}

mutual
  pub data Cbor : Type 0 where
    int : ℤ → Cbor
    bytes : Bytes → Cbor
    dict : Pairs → Cbor

  -- The entries of a map, the last one first.
  pub data Pairs : Type 0 where
    end : Pairs
    pair : Cbor → Cbor → Pairs → Pairs

-- A value and the position behind it, an exception, or no fuel left.
pub data CborRead {ℓ} (A : Type ℓ) : Type ℓ where
  ok : A → ℕ → CborRead A
  value_error type_error out_of_fuel : CborRead A

-- `widths.get(additional)`
abbrev pub width_of : ℕ → Option ℕ
width_of a =
    if a == 24
    then some 1
    else if a == 25
    then some 2
    else if a == 26
    then some 4
    else if a == 27
    then some 8
    else none

-- The largest number that a shorter form than `width` bytes can hold.
abbrev pub shorter_max : ℕ → ℕ
shorter_max width =
    if width == 1
    then 23
    else if width == 2
    then 0xff
    else if width == 4
    then 0xffff
    else 0xffffffff

abbrev pub read_width : Bytes → ℕ → Option ℕ → CborRead ℕ
read_width bs cursor none = value_error
read_width bs cursor (some width) =
    if ltb (length bs) (cursor + width)
    then value_error
    else let value = from_big (slice bs cursor width) in
      if leb value (shorter_max width) then value_error else ok value (cursor + width)

unfoldable pub read_cbor_unsigned : Bytes → ℕ → ℕ → CborRead ℕ
read_cbor_unsigned bs cursor additional =
    if ltb additional 24 then ok additional cursor else read_width bs cursor (width_of additional)

abbrev pub eq_bytes : Bytes → Bytes → Bool
eq_bytes [] [] = true
eq_bytes (a ∷ xs) (b ∷ ys) = a == b && eq_bytes xs ys
eq_bytes _ _ = false

-- `key in result`: `none` when the key has no hash.
abbrev pub same_key : Cbor → Cbor → Bool
same_key (int a) (int b) = eqz a b
same_key (bytes a) (bytes b) = eq_bytes a b
same_key _ _ = false

abbrev pub contains_key : Cbor → Pairs → Bool
contains_key k end = false
contains_key k (pair j v d) = same_key j k || contains_key k d

abbrev pub has_hash : Cbor → Bool
has_hash (dict d) = false
has_hash _ = true

infixl 5 ◌>>=◌
abbrev pub ◌>>=◌ {ℓ κ} : {A : Type ℓ} {B : Type κ} → CborRead A → (A → ℕ → CborRead B) → CborRead B
ok a c >>= f = f a c
value_error >>= f = value_error
type_error >>= f = type_error
out_of_fuel >>= f = out_of_fuel

-- One key of a map, after the entries that were read: its value, and the entries with it.
abbrev pub add_pair : (ℕ → CborRead Cbor) → Pairs → Cbor → ℕ → CborRead Pairs
add_pair read entries key cursor =
    if has_hash key
    then if contains_key key entries
      then value_error
      else (read cursor >>= λ value cursor'. ok (pair key value entries) cursor')
    else type_error

-- The loop over the `count` entries that are left.
unfoldable pub read_pairs : (ℕ → CborRead Cbor) → ℕ → Pairs → ℕ → CborRead Pairs
read_pairs read zero entries cursor = ok entries cursor
read_pairs read (suc count) entries cursor =
    read cursor >>= (λ key cursor'. add_pair read entries key cursor') >>= λ entries' cursor'.
    read_pairs read count entries' cursor'

abbrev pub byte_string : Bytes → ℕ → ℕ → CborRead Cbor
byte_string bs argument cursor =
    if ltb (length bs) (cursor + argument)
    then value_error
    else ok (bytes (slice bs cursor argument)) (cursor + argument)

-- The branches on the major type.
abbrev pub by_major : (ℕ → CborRead Cbor) → Bytes → ℕ → ℕ → ℕ → CborRead Cbor
by_major read bs major argument cursor =
    if major == 0
    then ok (int (pos argument)) cursor
    else if major == 1
    then ok (int (negsuc argument)) cursor
    else if major == 2
    then byte_string bs argument cursor
    else if major == 5
    then (read_pairs read argument end cursor >>= λ entries cursor'. ok (dict entries) cursor')
    else value_error

-- One item, where `read` reads the items inside it.
unfoldable pub read_item : (ℕ → CborRead Cbor) → Bytes → ℕ → CborRead Cbor
read_item read bs cursor =
    if leb (length bs) cursor
    then value_error
    else let initial = byte_at bs cursor in
      read_cbor_unsigned bs (cursor + 1) (initial % 32) >>= λ argument cursor'.
      by_major read bs (initial / 32) argument cursor'

unfoldable pub read_cbor_fuel : ℕ → Bytes → ℕ → CborRead Cbor
read_cbor_fuel zero bs cursor = out_of_fuel
read_cbor_fuel (suc f) bs cursor = read_item (read_cbor_fuel f bs) bs cursor

-- Each item inside another starts behind it, so the bytes that are left bound the depth.
unfoldable pub read_cbor : Bytes → ℕ → CborRead Cbor
read_cbor bs cursor = read_cbor_fuel (suc (length bs)) bs cursor
