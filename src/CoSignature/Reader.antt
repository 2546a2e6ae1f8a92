-- ===== src/CoSignature/Reader.antt =====
-- What the readers share: indexing, slices and big-endian numbers.
use keel_verifier.Base.{
  ℕ, zero, suc, ◌+◌, ◌*◌, ◌-◌, ◌≤◌, ◌<◌, ◌≡◌, refl, ap, sym, ◌∙◌, take-append-drop,
  drop-length-append, length-take, length-drop, [], ◌∷◌, ◌++◌, arith, length, take, drop,
  length-append,
}
use keel_verifier.Hex.{Bytes}
use keel_verifier.Hex.RoundTrip.{AreBytes}

-- A value, or a ValueError.
pub data Read {ℓ} (A : Type ℓ) : Type ℓ where
  ok : A → Read A
  value_error : Read A

infixl 6 ◌>>=◌
abbrev pub ◌>>=◌ {ℓ κ} : {A : Type ℓ} {B : Type κ} → Read A → (A → Read B) → Read B
value_error >>= next = value_error
ok a >>= next = next a

pub >>=-eq-ok {ℓ κ} :
    {A : Type ℓ} {B : Type κ} {b : B} (m : Read A) (next : A → Read B)
    → (m >>= next) ≡ ok b
    → (a : A) × (m ≡ ok a) × (next a ≡ ok b)
>>=-eq-ok value_error next h = cc
>>=-eq-ok (ok a) next h = (a, refl, h)

-- `data[i]`, at a position that the caller has tested.
abbrev pub byte_at : Bytes → ℕ → ℕ
byte_at [] i = 0
byte_at (b ∷ bs) zero = b
byte_at (b ∷ bs) (suc i) = byte_at bs i

-- `data[i : i + n]`
abbrev pub slice : Bytes → ℕ → ℕ → Bytes
slice bs i n = take n (drop i bs)

-- `int.from_bytes(bs, "big")`
abbrev pub from_big_onto : ℕ → Bytes → ℕ
from_big_onto acc [] = acc
from_big_onto acc (b ∷ bs) = from_big_onto (acc * 256 + b) bs

abbrev pub from_big : Bytes → ℕ
from_big = from_big_onto 0

-- A position inside the bytes shows its byte, and the next position the rest.
pub drop-cons :
    (bs : Bytes) (i j : ℕ) → i < length bs → j ≡ i + 1 → drop i bs ≡ byte_at bs i ∷ drop j bs
drop-cons [] i j h e = elim h [ ]
drop-cons (b ∷ bs) zero j h e = let f : j ≡ 1 = omega arith in rw f refl
drop-cons (b ∷ bs) (suc i) zero h e = absurd (omega arith)
drop-cons (b ∷ bs) (suc i) (suc j) h e = drop-cons bs i j (omega arith) (omega arith)

-- The other way round.
pub record Shows (bs : Bytes) (i b : ℕ) (w : Bytes) : Type 0 where
  pub inside : i < length bs
  pub byte : byte_at bs i ≡ b
  pub rest : (j : ℕ) → j ≡ i + 1 → drop j bs ≡ w

pub Shows-drop : (bs : Bytes) (i b : ℕ) (w : Bytes) → drop i bs ≡ b ∷ w → Shows bs i b w
Shows-drop [] zero b w h = cc
Shows-drop [] (suc i) b w h = cc
Shows-drop (a ∷ bs) zero b w h = record {
  inside = omega arith;
  byte = cc h;
  rest = λ j e. let f : j ≡ 1 = omega arith in rw f (cc h);
}
Shows-drop (a ∷ bs) (suc i) b w h =
    let s = Shows-drop bs i b w h in
    record {
      inside = omega (arith, s.inside);
      byte = s.byte;
      rest = λ j e. let f : j ≡ suc (j - 1) = omega arith in rw f (s.rest (j - 1) (omega arith));
    }

pub byte_at-lt : (bs : Bytes) (i : ℕ) → AreBytes bs → byte_at bs i < 256
byte_at-lt [] i h = omega arith
byte_at-lt (b ∷ bs) zero (h, hs) = h
byte_at-lt (b ∷ bs) (suc i) (h, hs) = byte_at-lt bs i hs

pub AreBytes-append : (xs ys : Bytes) → AreBytes xs → AreBytes ys → AreBytes (xs ++ ys)
AreBytes-append [] ys h k = k
AreBytes-append (x ∷ xs) ys (h, hs) k = (h, AreBytes-append xs ys hs k)

pub byte_at-take : (bs : Bytes) (n i : ℕ) → i < n → byte_at (take n bs) i ≡ byte_at bs i
byte_at-take bs zero i h = elim h [ ]
byte_at-take [] (suc n) i h = refl
byte_at-take (b ∷ bs) (suc n) zero h = refl
byte_at-take (b ∷ bs) (suc n) (suc i) h = byte_at-take bs n i (omega arith)

pub byte_at-drop : (bs : Bytes) (s i j : ℕ) → j ≡ s + i → byte_at (drop s bs) i ≡ byte_at bs j
byte_at-drop bs zero i j e = ap (byte_at bs) (omega arith)
byte_at-drop [] (suc s) i j e = refl
byte_at-drop (b ∷ bs) (suc s) i zero e = absurd (omega arith)
byte_at-drop (b ∷ bs) (suc s) i (suc j) e = byte_at-drop bs s i j (omega arith)

pub byte_at-slice :
    (bs : Bytes) (s n i j : ℕ) → i < n → j ≡ s + i → byte_at (slice bs s n) i ≡ byte_at bs j
byte_at-slice bs s n i j h e = byte_at-take (drop s bs) n i h ∙ byte_at-drop bs s i j e

pub drop-drop : (bs : Bytes) (s n j : ℕ) → j ≡ s + n → drop n (drop s bs) ≡ drop j bs
drop-drop bs zero n j e = ap (λ (k : ℕ). drop k bs) (omega arith)
drop-drop [] (suc s) n zero e = absurd (omega arith)
drop-drop [] (suc s) zero (suc j) e = refl
drop-drop [] (suc s) (suc n) (suc j) e = refl
drop-drop (b ∷ bs) (suc s) n zero e = absurd (omega arith)
drop-drop (b ∷ bs) (suc s) n (suc j) e = drop-drop bs s n j (omega arith)

-- What follows a cursor is a slice and what follows the slice.
pub drop-slice : (bs : Bytes) (s n j : ℕ) → j ≡ s + n → drop s bs ≡ slice bs s n ++ drop j bs
drop-slice bs s n j e =
    sym (take-append-drop n (drop s bs)) ∙ ap (λ r. slice bs s n ++ r) (drop-drop bs s n j e)

pub length-slice : (bs : Bytes) (s n : ℕ) → s + n ≤ length bs → length (slice bs s n) ≡ n
length-slice bs s n h = omega (arith, length-take n (drop s bs), length-drop s bs)

pub byte_at-append : (xs ys : Bytes) (i : ℕ) → i < length xs → byte_at (xs ++ ys) i ≡ byte_at xs i
byte_at-append [] ys i h = elim h [ ]
byte_at-append (x ∷ xs) ys zero h = refl
byte_at-append (x ∷ xs) ys (suc i) h = byte_at-append xs ys i (omega arith)

-- What follows a cursor is `xs ++ ys`: where `xs` ends, `ys` follows, and `xs` lies inside.
module _ (bs : Bytes) (c j : ℕ) (xs ys : Bytes) (d : drop c bs ≡ xs ++ ys) (e : j ≡ c + length xs)
    (some_byte : 0 < length xs) where
  pub drop_past : drop j bs ≡ ys
  drop_past =
      sym (drop-drop bs c (length xs) j e)
      ∙ ap (λ (l : Bytes). drop (length xs) l) d
      ∙ drop-length-append xs ys

  pub fits_past : j ≤ length bs
  fits_past = omega (arith, length-drop c bs, length-append xs ys, ap (λ (l : Bytes). length l) d)

  pub byte_ahead : (i k : ℕ) → i < length xs → k ≡ c + i → byte_at bs k ≡ byte_at xs i
  byte_ahead i k h f =
      sym (byte_at-drop bs c i k f) ∙ ap (λ (l : Bytes). byte_at l i) d ∙ byte_at-append xs ys i h
