-- ===== src/Authority/Library.antt =====
-- What the adjudications of authority take from Python's library and from packages, and the code of
-- verifier.py that wraps it.
use text.Mathlib.Text.{starts_with}
use keel_verifier.Base.{ℕ, zero, suc, String, Bool, false, Option, some, if◌then◌else◌}
use keel_verifier.Json.{Json}
use keel_verifier.Hex.{Bytes}
use keel_verifier.Trust.Window.{Stamp}

-- `none` is an exception.
pub record Library : Type 0 where
  -- `rfc8785.dumps`, `hashlib.sha256(b).hexdigest()`, `base64.b64decode`
  pub rfc8785_dumps : Json → Option Bytes
  pub sha256_hex : Bytes → String
  pub b64decode : String → Option Bytes
  -- `base64.b64decode(s, validate=True)`, `_canonical_json_bytes`, `s.encode("utf-8")`
  pub b64decode_strict : String → Option Bytes
  pub canonical_json : Json → Bytes
  pub encode_utf8 : String → Bytes
  -- a key of raw bytes, a message and a signature
  pub ed25519_verify : Bytes → Bytes → Bytes → Bool
  -- `str(v)`, `s.lower()` and `datetime.fromisoformat`
  pub text_of : Json → String
  pub lower : String → String
  pub fromisoformat : String → Option Stamp

unfoldable pub drop_chars : ℕ → String → String
drop_chars zero s = s
drop_chars (suc n) String.[] = ""
drop_chars (suc n) (String.◌∷◌ c s) = drop_chars n s

-- `s.removeprefix("ed25519:")`
unfoldable pub bare_key : String → String
unfolding drop_chars
bare_key s = if starts_with s "ed25519:" then drop_chars 8 s else s

abbrev pub verify_decoded :
    (Bytes → Bytes → Bytes → Bool) → Option Bytes → Bytes → Option Bytes → Bool
verify_decoded verify (some key) message (some signature) = verify key message signature
verify_decoded verify _ message _ = false

module _ (library : Library) where
  -- `_verify_ed25519`: an exception of a decoder is a failure.
  unfoldable pub verify_ed25519 : String → Bytes → String → Bool
  unfolding bare_key
  verify_ed25519 key message signature =
      verify_decoded library.ed25519_verify (library.b64decode (bare_key key)) message
        (library.b64decode (bare_key signature))
