-- ===== src/Hex.antt =====
-- Bytes and their hexadecimal text: `bytes.fromhex` and `bytes.hex` of Python.
pub mod RoundTrip
use Prim.Native.Char.{Char, code}
use Prim.Native.String.{String}
use keel_verifier.Base.{
  ℕ, ◌+◌, ◌-◌, ◌*◌, ◌/◌, ◌%◌, Bool, ◌&&◌, ◌||◌, Option, none, some, List, [], ◌∷◌, leb, ◌==◌,
  if◌then◌else◌,
}

abbrev pub Bytes : Type 0
Bytes = List ℕ

-- The bytes of an ASCII text.
abbrev pub ascii : String → Bytes
ascii String.[] = []
ascii (String.◌∷◌ c s) = code c ∷ ascii s

unfoldable pub hex_value : ℕ → Option ℕ
hex_value c =
    if leb b'0' c && leb c b'9'
    then some (c - 48)
    else if leb b'a' c && leb c b'f'
    then some (c - 87)
    else if leb b'A' c && leb c b'F'
    then some (c - 55)
    else none

-- ASCII white space may stand between two bytes.
unfoldable pub is_ascii_space : ℕ → Bool
is_ascii_space c = c == 32 || (leb 9 c && leb c 13)

abbrev pub cons_byte : ℕ → Option Bytes → Option Bytes
cons_byte b none = none
cons_byte b (some bs) = some (b ∷ bs)

abbrev pub low_digit : Option ℕ → ℕ → Option Bytes → Option Bytes
low_digit none high rest = none
low_digit (some low) high rest = cons_byte (high * 16 + low) rest

-- What comes after the first digit of a byte, or between two bytes.
unfoldable pub from_hex_go : Option ℕ → String → Option Bytes
from_hex_go none String.[] = some []
from_hex_go (some high) String.[] = none
from_hex_go none (String.◌∷◌ c s) =
    let skip = from_hex_go none s in
    let digit : Option Bytes = elim (hex_value (code c)) [
      | none ↦ none
      | some high ↦ from_hex_go (some high) s
    ] in
    if is_ascii_space (code c) then skip else digit
from_hex_go (some high) (String.◌∷◌ c s) = low_digit (hex_value (code c)) high (from_hex_go none s)

-- `bytes.fromhex(s)`, where a ValueError is `none`.
unfoldable pub from_hex : String → Option Bytes
unfolding from_hex_go hex_value is_ascii_space
from_hex s = from_hex_go none s

unfoldable pub hex_char : ℕ → Char
hex_char n =
    if n == 0
    then "0"
    else if n == 1
    then "1"
    else if n == 2
    then "2"
    else if n == 3
    then "3"
    else if n == 4
    then "4"
    else if n == 5
    then "5"
    else if n == 6
    then "6"
    else if n == 7
    then "7"
    else if n == 8
    then "8"
    else if n == 9
    then "9"
    else if n == 10
    then "a"
    else if n == 11
    then "b"
    else if n == 12
    then "c"
    else if n == 13
    then "d"
    else if n == 14
    then "e"
    else "f"

-- `bs.hex()`
unfoldable pub to_hex : Bytes → String
to_hex [] = ""
to_hex (b ∷ bs) = String.◌∷◌ (hex_char (b / 16)) (String.◌∷◌ (hex_char (b % 16)) (to_hex bs))
