-- ===== src/Hex/RoundTrip.antt =====
-- Printed bytes are read back.
use Prim.Native.Char.{code}
use mathlib.Core.Path.{subst}
use keel_verifier.Base.{
  ℕ, String, ◌/◌, ◌%◌, ◌<◌, ◌≡◌, refl, ap, Bool, true, false, ◌&&◌, not, holds_below,
  holds_below_at, &&-eq-true, Option, Option-cases, Bool-cases, inl, inr, none, some, [], ◌∷◌,
  arith, ◌==◌,
}
use keel_verifier.Hex.{
  Bytes, hex_value, is_ascii_space, low_digit, from_hex_go, from_hex, hex_char, to_hex,
}

-- Every item is a byte.
abbrev pub AreBytes : Bytes → Type 0
AreBytes [] = Unit
AreBytes (b ∷ bs) = (b < 256) × AreBytes bs

abbrev is_digit : ℕ → Option ℕ → Bool
is_digit n none = false
is_digit n (some m) = m == n

abbrev reads_back : ℕ → Bool
reads_back n =
    is_digit n (hex_value (code (hex_char n))) && not (is_ascii_space (code (hex_char n)))

reads_back_table : holds_below reads_back 16 ≡ true
unfolding holds_below hex_value hex_char is_ascii_space
reads_back_table = refl

is_digit-eq : (n : ℕ) (o : Option ℕ) → is_digit n o ≡ true → o ≡ some n
is_digit-eq n o h = ground arith

hex_char-reads_back : (n : ℕ) → n < 16 → reads_back n ≡ true
hex_char-reads_back n h = holds_below_at reads_back n 16 h reads_back_table

module _ (n : ℕ) (h : n < 16) where
  hex_value-hex_char : hex_value (code (hex_char n)) ≡ some n
  hex_value-hex_char = is_digit-eq n _ (&&-eq-true _ _ (hex_char-reads_back n h)).0

  is_ascii_space-hex_char : is_ascii_space (code (hex_char n)) ≡ false
  is_ascii_space-hex_char = ground (arith, hex_char-reads_back n h)

from_hex_go-to_hex : (bs : Bytes) → AreBytes bs → from_hex_go none (to_hex bs) ≡ some bs
unfolding from_hex_go to_hex
from_hex_go-to_hex [] h = refl
from_hex_go-to_hex (b ∷ bs) (h, hs) =
    rw
      (
        is_ascii_space-hex_char (b / 16) (omega arith),
        hex_value-hex_char (b / 16) (omega arith),
        hex_value-hex_char (b % 16) (omega arith),
        from_hex_go-to_hex bs hs,
      )
      (ap (λ (c : ℕ). some (c ∷ bs)) (omega arith))

pub from_hex-to_hex : (bs : Bytes) → AreBytes bs → from_hex (to_hex bs) ≡ some bs
unfolding from_hex
from_hex-to_hex bs h = from_hex_go-to_hex bs h

pub to_hex_inj : (xs ys : Bytes) → AreBytes xs → AreBytes ys → to_hex xs ≡ to_hex ys → xs ≡ ys
to_hex_inj xs ys h k e = cc (from_hex-to_hex xs h, from_hex-to_hex ys k, e)

hex_value-lt : (c d : ℕ) → hex_value c ≡ some d → d < 16
unfolding hex_value
hex_value-lt c d h = ground arith

abbrev HalfByte : Option ℕ → Type 0
HalfByte none = Unit
HalfByte (some high) = high < 16

abbrev AllBytes : Option Bytes → Type 0
AllBytes none = Unit
AllBytes (some bs) = AreBytes bs

low_digit-AllBytes :
    (o : Option ℕ) (high : ℕ) (rest : Option Bytes)
    → HalfByte o
    → high < 16
    → AllBytes rest
    → AllBytes (low_digit o high rest)
low_digit-AllBytes none high rest h k r = tt
low_digit-AllBytes (some low) high none h k r = tt
low_digit-AllBytes (some low) high (some bs) h k r = (omega arith, r)

hex_value-HalfByte : (c : ℕ) → HalfByte (hex_value c)
hex_value-HalfByte c = elim (Option-cases (hex_value c)) [
  | inl e ↦ rw e tt
  | inr (d, e) ↦ rw e (hex_value-lt c d e)
]

from_hex_go-AllBytes : (o : Option ℕ) (s : String) → HalfByte o → AllBytes (from_hex_go o s)
unfolding from_hex_go
from_hex_go-AllBytes none String.[] h = tt
from_hex_go-AllBytes (some high) String.[] h = tt
from_hex_go-AllBytes none (String.◌∷◌ c s) h = elim (Bool-cases (is_ascii_space (code c))) [
  | inl e ↦ rw e (from_hex_go-AllBytes none s tt)
  | inr e ↦ elim (Option-cases (hex_value (code c))) [
    | inl f ↦ rw (e, f) tt
    | inr (d, f) ↦ rw (e, f) (from_hex_go-AllBytes (some d) s (hex_value-lt _ d f))
  ]
]
from_hex_go-AllBytes (some high) (String.◌∷◌ c s) h =
    low_digit-AllBytes (hex_value (code c)) high _ (hex_value-HalfByte (code c)) h
      (from_hex_go-AllBytes none s tt)

-- Whatever text is read, the bytes are below 256.
pub from_hex-AreBytes : (s : String) (bs : Bytes) → from_hex s ≡ some bs → AreBytes bs
unfolding from_hex
from_hex-AreBytes s bs e = subst AllBytes e (from_hex_go-AllBytes none s tt)
