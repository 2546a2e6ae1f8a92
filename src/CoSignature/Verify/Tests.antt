-- ===== src/CoSignature/Verify/Tests.antt =====
-- What the tests of the authenticator and of the signature show, when they pass.
use keel_verifier.Base.{
  ◌≡◌, refl, Bool, true, false, ◌&&◌, ◌||◌, not, Option, none, some, ℤ, arith, length, ltb, ◌≤◌,
  if◌then◌else◌,
}
use keel_verifier.Json.{Fields, get}
use keel_verifier.Hex.{Bytes}
use keel_verifier.CoSignature.Reader.{byte_at}
use keel_verifier.CoSignature.Protocol.{
  Crypto, CoSignatureResult, disproved, authenticator_data_invalid, user_verification_required,
  supported, PublicKey, has_flag, decode, decode_cose_public_key,
}
use keel_verifier.CoSignature.Verify.{
  well_formed_signature, verifies, signed_data, rp_matches, check_signature, check_key, check_flags,
}

abbrev pub Passes : CoSignatureResult → Type 0
Passes (supported f e b n) = Unit
Passes _ = ⊥

-- The outcome of a test that a supported result has passed.
pub Passes-if :
    (b : Bool) (stop next : CoSignatureResult)
    → (Passes stop → ⊥)
    → Passes (if b then stop else next)
    → (b ≡ false) × Passes next
Passes-if true stop next refuse p = absurd (refuse p)
Passes-if false stop next refuse p = (refl, p)

not-false : (b : Bool) → not b ≡ false → b ≡ true
not-false true h = refl
not-false false h = cc

pub second-true : (a b c : Bool) → (not a || not b || not c) ≡ false → b ≡ true
second-true true true c h = refl
second-true true false c h = cc
second-true false b c h = cc

pub third-true : (a b c : Bool) → (not a || not b || not c) ≡ false → c ≡ true
third-true true true true h = refl
third-true true true false h = cc
third-true true false c h = cc
third-true false b c h = cc

pub Passes-not :
    (b : Bool) (stop next : CoSignatureResult)
    → (Passes stop → ⊥)
    → Passes (if not b then stop else next)
    → (b ≡ true) × Passes next
Passes-not b stop next refuse p =
    let q = Passes-if (not b) stop next refuse p in (not-false b q.0, q.1)

module _ {P256 Ed25519 : Type 0} (crypto : Crypto P256 Ed25519) where
  -- The signature of an authenticator's data and of the hash of the client's verifies.
  pub record IsSigned (registered assertion : Fields) (algorithm : ℤ) (auth client : Bytes)
      : Type 0 where
    pub key : PublicKey P256 Ed25519
    pub registers :
        decode_cose_public_key crypto (get registered "public_key_cose") algorithm ≡ some key
    pub signature : Bytes
    pub carries : decode crypto (get assertion "signature") ≡ some signature
    pub well_formed : well_formed_signature algorithm signature ≡ true
    pub verified : verifies crypto key signature (signed_data crypto auth client) ≡ true

  check_signature-Passes :
      (algorithm : ℤ) (auth client : Bytes) (key : PublicKey P256 Ed25519) (sig : Option Bytes)
      → Passes (check_signature crypto algorithm auth client key sig)
      → (s : Bytes) × (sig ≡ some s)
        × (well_formed_signature algorithm s ≡ true)
        × (verifies crypto key s (signed_data crypto auth client) ≡ true)
  check_signature-Passes algorithm auth client key none p = absurd p
  check_signature-Passes algorithm auth client key (some s) p =
      let a = Passes-not _ _ _ (λ x. x) p in
      let b = Passes-not _ _ _ (λ x. x) a.1 in (s, refl, a.0, b.0)

  module _ (registered assertion : Fields) (algorithm : ℤ) (auth client : Bytes) where
    pub by_key :
        (k : Option (PublicKey P256 Ed25519))
        → decode_cose_public_key crypto (get registered "public_key_cose") algorithm ≡ k
        → Passes
            (check_key crypto algorithm auth client k (decode crypto (get assertion "signature")))
        → IsSigned registered assertion algorithm auth client
    by_key none e p = absurd p
    by_key (some key) e p =
        let (s, c, w, v) = check_signature-Passes algorithm auth client key _ p in
        record {
          key = key;
          registers = e;
          signature = s;
          carries = c;
          well_formed = w;
          verified = v;
        }

  -- What an authenticator's data says, behind the tests of its flags.
  pub record IsPresent (registered : Fields) (uv : Bool) (auth : Bytes) : Type 0 where
    pub party : rp_matches crypto (get registered "rp_id") auth ≡ true
    pub long : 37 ≤ length auth
    pub backup : has_flag 16 (byte_at auth 32) ≡ true → has_flag 8 (byte_at auth 32) ≡ true
    pub user_present : has_flag 1 (byte_at auth 32) ≡ true
    pub user_verified : uv ≡ true → has_flag 4 (byte_at auth 32) ≡ true

  pub check_flags-IsPresent :
      (registered : Fields) (uv : Bool) (auth : Bytes) (next : CoSignatureResult)
      → Passes (check_flags crypto uv (get registered "rp_id") auth next)
      → IsPresent registered uv auth × Passes next
  check_flags-IsPresent registered uv auth next p =
      let a =
        Passes-if
          (ltb (length auth) 37
            || (has_flag 16 (byte_at auth 32) && not (has_flag 8 (byte_at auth 32))))
          (disproved authenticator_data_invalid) _ (λ x. x) p in
      let b = Passes-not _ _ _ (λ x. x) a.1 in
      let c = Passes-not _ _ _ (λ x. x) b.1 in
      let d =
        Passes-if (uv && not (has_flag 4 (byte_at auth 32))) (disproved user_verification_required)
          next (λ x. x) c.1 in
      let first = a.0 in
      let last = d.0 in
      (
        record {
          party = b.0;
          long = ground (arith, first);
          backup = λ h. ground (arith, first);
          user_present = c.0;
          user_verified = λ h. ground (arith, last);
        },
        d.1,
      )
