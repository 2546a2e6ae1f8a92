-- ===== src/CoSignature/Der/Signature.antt =====
-- `_valid_es256_der` accepts exactly the canonical encodings of two integers from zero on.
use mathlib.Core.Path.{subst}
use mathlib.Core.List.{append-nil}
use keel_verifier.Base.{
  ℕ, zero, suc, ◌+◌, ◌≤◌, ◌<◌, ◌≡◌, ◌≢◌, refl, sym, ◌∙◌, ap, true, ◌↔◌, [], ◌∷◌, ◌++◌, arith,
  length, drop, ◌==◌, Bool-cases, inl, inr, length-append, length-drop,
}
use keel_verifier.Hex.{Bytes}
use keel_verifier.Hex.RoundTrip.{AreBytes}
use keel_verifier.CoSignature.Reader.{Read, ok, value_error, ◌>>=◌, >>=-eq-ok, drop_past}
use keel_verifier.CoSignature.Der.{
  read_der_length, read_der_integer, ends_at, sequence_body, valid_es256_der,
}
use keel_verifier.CoSignature.Der.Lengths.{
  der_length, length-der_length, IsLengthAt, read_der_length-IsLengthAt,
}
use keel_verifier.CoSignature.Der.ReadBack.{read_der_length-der_length}
use keel_verifier.CoSignature.Der.Integers.{
  IsInteger, der_integer, IsIntegerAt, read_der_integer-IsIntegerAt, read_der_integer-der_integer,
}

abbrev pub der_body : Bytes → Bytes → Bytes
der_body r s = der_integer r ++ der_integer s

-- The canonical encoding of a signature with the integers `r` and `s`.
abbrev pub der_signature : Bytes → Bytes → Bytes
der_signature r s = 48 ∷ (der_length (length (der_body r s)) ++ der_body r s)

pub record IsSignature (bs r s : Bytes) : Type 0 where
  pub first : IsInteger r
  pub second : IsInteger s
  pub small : length (der_body r s) < 65536
  pub bytes : bs ≡ der_signature r s

drop_end : (bs : Bytes) (n : ℕ) → length bs ≤ n → drop n bs ≡ []
drop_end [] zero h = refl
drop_end [] (suc n) h = refl
drop_end (b ∷ bs) zero h = absurd (omega arith)
drop_end (b ∷ bs) (suc n) h = drop_end bs n (omega arith)

ends_at-true : (bs : Bytes) (m : Read ℕ) → ends_at bs m ≡ true → m ≡ ok (length bs)
ends_at-true bs value_error h = cc
ends_at-true bs (ok n) h = let e : n ≡ length bs = ground arith in cc e

sequence_body-true :
    (bs : Bytes) (m : Read (ℕ × ℕ))
    → sequence_body bs m ≡ true
    → (n : ℕ) × (s : ℕ) × (m ≡ ok (n, s))
      × (s + n ≡ length bs)
      × ((read_der_integer bs s >>= read_der_integer bs) ≡ ok (length bs))
sequence_body-true bs value_error h = cc
sequence_body-true bs (ok (n, s)) h = elim (Bool-cases (s + n == length bs)) [
  | inl e ↦ (n, s, refl, ground arith, ends_at-true bs _ (rw e at h))
  | inr e ↦ cc (rw e at h)
]

module _ (b : ℕ) (bs : Bytes) (valid : AreBytes (b ∷ bs)) where
  IsSignature-drop :
      (n s a : ℕ) (r t : Bytes)
      → b ≡ 48
      → s + n ≡ length (b ∷ bs)
      → IsLengthAt (b ∷ bs) 1 n s
      → IsIntegerAt (b ∷ bs) s a r
      → IsIntegerAt (b ∷ bs) a (length (b ∷ bs)) t
      → IsSignature (b ∷ bs) r t
  IsSignature-drop n s a r t tag size l i j =
      let rest : drop a (b ∷ bs) ≡ der_integer t =
        j.bytes
        ∙ ap (λ w. der_integer t ++ w) (drop_end (b ∷ bs) (length (b ∷ bs)) (omega arith))
        ∙ append-nil (der_integer t) in
      let body : drop s (b ∷ bs) ≡ der_body r t = i.bytes ∙ ap (λ w. der_integer r ++ w) rest in
      let n' : n ≡ length (der_body r t) =
        omega (arith, length-drop s (b ∷ bs), ap (λ (w : Bytes). length w) body) in
      record {
        first = i.integer;
        second = j.integer;
        small = omega (arith, l.small, n');
        bytes = cc (tag, l.bytes, body, n');
      }

  accepted_shape :
      valid_es256_der (b ∷ bs) ≡ true
      → (b ≡ 48) × (sequence_body (b ∷ bs) (read_der_length (b ∷ bs) 1) ≡ true)
  unfolding valid_es256_der
  accepted_shape h = ground arith

  accepted-IsSignature :
      valid_es256_der (b ∷ bs) ≡ true → (r : Bytes) × (t : Bytes) × IsSignature (b ∷ bs) r t
  accepted-IsSignature h =
      let (tag, sequence) = accepted_shape h in
      let (n, s, l, size, body) = sequence_body-true (b ∷ bs) _ sequence in
      let (a, p, q) = >>=-eq-ok (read_der_integer (b ∷ bs) s) _ body in
      let (r, i) = read_der_integer-IsIntegerAt (b ∷ bs) s valid a p in
      let (t, j) = read_der_integer-IsIntegerAt (b ∷ bs) a valid (length (b ∷ bs)) q in
      (
        r,
        t,
        IsSignature-drop n s a r t tag size (read_der_length-IsLengthAt (b ∷ bs) 1 valid n s l) i j,
      )

module _ (r t : Bytes) (i : IsInteger r) (j : IsInteger t) (small : length (der_body r t) < 65536)
    (valid : AreBytes (der_signature r t)) where
  abbrev sig : Bytes
  sig = der_signature r t

  abbrev start : ℕ
  start = 1 + length (der_length (length (der_body r t)))

  abbrev second : ℕ
  second = start + length (der_integer r)

  at_first : drop start sig ≡ der_integer r ++ der_integer t
  at_first =
      drop_past sig 1 start (der_length (length (der_body r t))) (der_body r t) refl refl
        (length-der_length _)

  at_second : drop second sig ≡ der_integer t
  at_second = drop_past sig start second (der_integer r) (der_integer t) at_first refl (omega arith)

  both_read :
      (read_der_integer sig start >>= read_der_integer sig) ≡ ok (second + length (der_integer t))
  both_read = rw (read_der_integer-der_integer sig start r (der_integer t) valid i at_first) (
      read_der_integer-der_integer sig second t [] valid j
        (at_second ∙ sym (append-nil (der_integer t))))

  sizes :
      (start + length (der_body r t) ≡ length sig) × (second + length (der_integer t) ≡ length sig)
  sizes = (
    omega (arith, length-append (der_length (length (der_body r t))) (der_body r t)),
    omega (
      arith,
      length-append (der_length (length (der_body r t))) (der_body r t),
      length-append (der_integer r) (der_integer t),
    ),
  )

  der_signature_valid : valid_es256_der sig ≡ true
  unfolding valid_es256_der
  der_signature_valid =
      rw
        (
          read_der_length-der_length sig 1 (length (der_body r t)) (der_body r t) small refl,
          both_read,
          sizes.1,
        )
        (ground (arith, sizes.0))

nil_refused : valid_es256_der [] ≢ true
unfolding valid_es256_der
nil_refused h = cc h

-- A text of bytes is accepted exactly when it is the canonical encoding of two integers from zero on,
-- each in its shortest form, with bodies and sequence shorter than 65536 bytes.
pub valid_es256_der_iff :
    (bs : Bytes)
    → AreBytes bs
    → (valid_es256_der bs ≡ true) ↔ ((r : Bytes) × (t : Bytes) × IsSignature bs r t)
valid_es256_der_iff [] valid = (λ h. absurd (nil_refused h), λ (r, t, s). cc s.bytes)
valid_es256_der_iff (b ∷ bs) valid = (
  accepted-IsSignature b bs valid,
  λ (r, t, s).
      rw s.bytes (der_signature_valid r t s.first s.second s.small (subst AreBytes s.bytes valid)),
)
