-- ===== src/Claims/Registry/Pinned.antt =====
-- A registry that extends another rests on the bundled file with the digest that it pins.
use text.Mathlib.TextEquality.{eq_iff}
use keel_verifier.Base.{String, ◌≡◌, refl, Option, none, some, str_eq, Bool-cases, inl, inr}
use keel_verifier.Json.{
  Json, null, str, obj, Fields, get, as_str, eq_str, eq_str-eq, eq_str_refl, or_null,
}
use keel_verifier.Hex.{Bytes, to_hex}
use keel_verifier.Claims.Registry.{base_of, digest_text, checked_base, pinned_base, load_base}

module _ (sha256 : Bytes → Bytes) (json_loads : Bytes → Option Json)
    (bundled : String → Option Bytes) where
  -- What the base of an extension is.
  pub record IsBase (extension base : Fields) : Type 0 where
    pub suffix : String
    pub version : String
    pub named :
        base_of (as_str (get extension "artifact_id")) (as_str (get extension "version"))
        ≡ some (suffix, version)
    pub raw : Bytes
    pub found : bundled suffix ≡ some raw
    pub pinned : digest_text (get extension "sha256") ≡ to_hex (sha256 raw)
    pub parsed : or_null (json_loads raw) ≡ obj base
    pub has_version : get base "version" ≡ str version

  checked_base-some :
      (extension base : Fields) (version : String) (v : Json)
      → checked_base sha256 json_loads bundled extension version v ≡ some base
      → (v ≡ obj base) × (get base "version" ≡ str version)
  checked_base-some extension base version (obj d) h =
      elim (Bool-cases (eq_str (get d "version") version)) [
        | inl e ↦ let same : d ≡ base = cc (rw e at h) in (cc same, rw (← same) (eq_str-eq _ _ e))
        | inr e ↦ cc (rw e at h)
      ]
  checked_base-some extension base version null h = cc
  checked_base-some extension base version _ h = cc

  pinned_base-some :
      (extension base : Fields) (version : String) (o : Option Bytes)
      → pinned_base sha256 json_loads bundled extension version o ≡ some base
      → (raw : Bytes) × (o ≡ some raw)
        × (digest_text (get extension "sha256") ≡ to_hex (sha256 raw))
        × (or_null (json_loads raw) ≡ obj base)
        × (get base "version" ≡ str version)
  pinned_base-some extension base version none h = cc
  pinned_base-some extension base version (some raw) h =
      elim (Bool-cases (str_eq (digest_text (get extension "sha256")) (to_hex (sha256 raw)))) [
        | inl e ↦
            let c =
              checked_base-some extension base version (or_null (json_loads raw)) (rw e at h) in
            (raw, refl, (eq_iff _ _).0 e, c.0, c.1)
        | inr e ↦ cc (rw e at h)
      ]

  pub load_base-IsBase :
      (extension base : Fields)
      → load_base sha256 json_loads bundled extension ≡ some base
      → IsBase extension base
  load_base-IsBase extension base h =
      by_name (base_of (as_str (get extension "artifact_id")) (as_str (get extension "version")))
        refl
    where
      by_name :
          (o : Option (String × String))
          → base_of (as_str (get extension "artifact_id")) (as_str (get extension "version")) ≡ o
          → IsBase extension base
      by_name none e = cc (rw (e, load_base) at h)
      by_name (some (suffix, version)) e =
          let (raw, found, pinned, parsed, has_version) =
            pinned_base-some extension base version (bundled suffix) (rw (e, load_base) at h) in
          record {
            suffix = suffix;
            version = version;
            named = e;
            raw = raw;
            found = found;
            pinned = pinned;
            parsed = parsed;
            has_version = has_version;
          }

  pub IsBase-load_base :
      (extension base : Fields)
      → IsBase extension base
      → load_base sha256 json_loads bundled extension ≡ some base
  IsBase-load_base extension base b =
      let same = (eq_iff (to_hex (sha256 b.raw)) (to_hex (sha256 b.raw))).1 refl in
      rw
        (
          load_base,
          b.named,
          b.found,
          b.pinned,
          same,
          b.parsed,
          b.has_version,
          eq_str_refl b.version,
        )
        refl
