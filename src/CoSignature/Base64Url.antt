-- ===== src/CoSignature/Base64Url.antt =====
-- keel_verifier/permit_co_signature.py: `_encode_base64url` and `_decode_base64url`. The functions of
-- the base64 module are parameters.
use Prim.Native.Char.{Char, code}
use Prim.Native.String.{◌++◌ as ◌<>◌}
use keel_verifier.Base.{
  ℕ, zero, suc, ◌-◌, ◌%◌, String, Bool, true, ◌&&◌, ◌||◌, not, Option, none, some, [], ◌∷◌, str_eq,
  leb, ◌==◌, if◌then◌else◌,
}
use keel_verifier.Json.{Json, str}
use keel_verifier.Hex.{Bytes}

abbrev all_chars : (ℕ → Bool) → String → Bool
all_chars p String.[] = true
all_chars p (String.◌∷◌ c s) = p (code c) && all_chars p s

abbrev pub count_chars : String → ℕ
count_chars String.[] = 0
count_chars (String.◌∷◌ c s) = suc (count_chars s)

abbrev is_base64url : ℕ → Bool
is_base64url c =
    (leb 65 c && leb c 90)
    || (leb 97 c && leb c 122)
    || (leb 48 c && leb c 57)
    || c == 95
    || c == 45

abbrev is_lower_hex : ℕ → Bool
is_lower_hex c = (leb 97 c && leb c 102) || (leb 48 c && leb c 57)

-- `_SHA256_HEX_RE.fullmatch(s)`
unfoldable pub is_sha256_hex : String → Bool
is_sha256_hex s = all_chars is_lower_hex s && count_chars s == 64

-- `_B64URL_RE.fullmatch(s)`
unfoldable pub is_base64url_text : String → Bool
is_base64url_text s = all_chars is_base64url s && not (str_eq s "")

-- `s.replace("-", "+").replace("_", "/")`
abbrev standard_char : Char → Char
standard_char c = if code c == 45 then "+" else if code c == 95 then "/" else c

abbrev standard_alphabet : String → String
standard_alphabet String.[] = ""
standard_alphabet (String.◌∷◌ c s) = String.◌∷◌ (standard_char c) (standard_alphabet s)

abbrev repeat : ℕ → String
repeat zero = ""
repeat (suc n) = "=" <> repeat n

-- `rstrip(b"=")`
abbrev strip_padding : String → String
strip_padding String.[] = ""
strip_padding (String.◌∷◌ c s) =
    let rest = strip_padding s in if code c == 61 && str_eq rest "" then "" else String.◌∷◌ c rest

module _ (urlsafe_b64encode : Bytes → String) (b64decode : String → Option Bytes) where
  unfoldable pub encode_base64url : Bytes → String
  encode_base64url value = strip_padding (urlsafe_b64encode value)

  abbrev canonical : String → Option Bytes → Option Bytes
  canonical value none = none
  canonical value (some []) = none
  canonical value (some (b ∷ bs)) =
      if str_eq (strip_padding (urlsafe_b64encode (b ∷ bs))) value then some (b ∷ bs) else none

  abbrev decode_text : String → Option Bytes
  decode_text value =
      if is_base64url_text value
      then canonical value
          (b64decode (standard_alphabet value <> repeat ((4 - count_chars value % 4) % 4)))
      else none

  -- `none` is the ValueError.
  unfoldable pub decode_base64url : Json → Option Bytes
  unfolding is_base64url_text
  decode_base64url (str value) = decode_text value
  decode_base64url _ = none
