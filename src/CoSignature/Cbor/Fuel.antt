-- ===== src/CoSignature/Cbor/Fuel.antt =====
-- Every item ends behind its start and inside the bytes, so the fuel never runs out.
use keel_verifier.Base.{
  ℕ, zero, suc, ◌+◌, ◌/◌, ◌%◌, ◌≤◌, ◌<◌, ◌≡◌, refl, Bool, true, false, Option, none, some, arith,
  length, leb, ltb, ◌==◌, if◌then◌else◌, Bool-cases, inl, inr,
}
use keel_verifier.Hex.{Bytes}
use keel_verifier.CoSignature.Reader.{byte_at, slice, from_big}
use keel_verifier.CoSignature.Cbor.{
  Cbor, Pairs, end, CborRead, ok, value_error, type_error, out_of_fuel, width_of, shorter_max,
  read_width, read_cbor_unsigned, ◌>>=◌, add_pair, contains_key, has_hash, read_pairs, by_major,
  read_item, read_cbor_fuel, read_cbor,
}

-- An outcome at a position: a value whose end is not before it and not past the bytes, or an
-- exception, but not a lack of fuel.
abbrev pub Lands {ℓ} : {A : Type ℓ} → Bytes → ℕ → CborRead A → Type 0
Lands bs c (ok v e) = (c ≤ e) × (e ≤ length bs)
Lands bs c value_error = Unit
Lands bs c type_error = Unit
Lands bs c out_of_fuel = ⊥

Lands-earlier {ℓ} :
    {A : Type ℓ} (bs : Bytes) (c d : ℕ) (m : CborRead A) → c ≤ d → Lands bs d m → Lands bs c m
Lands-earlier bs c d (ok v e) h l = omega arith
Lands-earlier bs c d value_error h l = tt
Lands-earlier bs c d type_error h l = tt
Lands-earlier bs c d out_of_fuel h l = l

Lands-bind {ℓ κ} :
    {A : Type ℓ} {B : Type κ} (bs : Bytes) (c : ℕ) (m : CborRead A) (f : A → ℕ → CborRead B)
    → Lands bs c m
    → ((a : A) (e : ℕ) → c ≤ e → e ≤ length bs → Lands bs e (f a e))
    → Lands bs c (m >>= f)
Lands-bind bs c (ok a e) f l g = Lands-earlier bs c e (f a e) l.0 (g a e l.0 l.1)
Lands-bind bs c value_error f l g = tt
Lands-bind bs c type_error f l g = tt
Lands-bind bs c out_of_fuel f l g = l

Lands-if {ℓ} :
    {A : Type ℓ} (bs : Bytes) (c : ℕ) (b : Bool) (m n : CborRead A)
    → (b ≡ true → Lands bs c m)
    → (b ≡ false → Lands bs c n)
    → Lands bs c (if b then m else n)
Lands-if bs c true m n f g = f refl
Lands-if bs c false m n f g = g refl

module _ (bs : Bytes) where
  read_width-Lands : (c : ℕ) (o : Option ℕ) → Lands bs c (read_width bs c o)
  read_width-Lands c none = tt
  read_width-Lands c (some width) =
      Lands-if bs c (ltb (length bs) (c + width)) _ _ (λ _. tt)
        λ fits.
          Lands-if bs c (leb (from_big (slice bs c width)) (shorter_max width)) _ _ (λ _. tt)
            λ _. (omega arith, ground arith)

  read_cbor_unsigned-Lands :
      (c additional : ℕ) → c ≤ length bs → Lands bs c (read_cbor_unsigned bs c additional)
  unfolding read_cbor_unsigned
  read_cbor_unsigned-Lands c additional h = elim (Bool-cases (ltb additional 24)) [
    | inl small ↦ rw small (omega arith, h)
    | inr large ↦ rw large (read_width-Lands c (width_of additional))
  ]

  -- `read` lands from `c` on.
  abbrev LandsFrom : ℕ → (ℕ → CborRead Cbor) → Type 0
  LandsFrom c read = (d : ℕ) → c ≤ d → d ≤ length bs → Lands bs d (read d)

  add_pair-Lands :
      (c : ℕ) (read : ℕ → CborRead Cbor) (entries : Pairs) (key : Cbor) (d : ℕ)
      → LandsFrom c read
      → c ≤ d
      → d ≤ length bs
      → Lands bs d (add_pair read entries key d)
  add_pair-Lands c read entries key d r h k =
      Lands-if bs d (has_hash key) _ _
        (λ _.
          Lands-if bs d (contains_key key entries) _ _ (λ _. tt)
            λ _. Lands-bind bs d (read d) _ (r d h k) (λ value e _ l. (omega arith, l)))
        (λ _. tt)

  read_pairs-Lands :
      (c : ℕ) (read : ℕ → CborRead Cbor) (count : ℕ) (entries : Pairs) (d : ℕ)
      → LandsFrom c read
      → c ≤ d
      → d ≤ length bs
      → Lands bs d (read_pairs read count entries d)
  unfolding read_pairs
  read_pairs-Lands c read zero entries d r h k = (omega arith, k)
  read_pairs-Lands c read (suc count) entries d r h k =
      Lands-bind bs d _ _
        (Lands-bind bs d (read d) _ (r d h k)
          (λ key e l m. add_pair-Lands c read entries key e r (omega arith) m))
        (λ entries' e l m. read_pairs-Lands c read count entries' e r (omega arith) m)

  by_major-Lands :
      (read : ℕ → CborRead Cbor) (major argument c : ℕ)
      → LandsFrom c read
      → c ≤ length bs
      → Lands bs c (by_major read bs major argument c)
  by_major-Lands read major argument c r h =
      Lands-if bs c (major == 0) _ _ (λ _. (omega arith, h))
        λ _.
          Lands-if bs c (major == 1) _ _ (λ _. (omega arith, h))
            λ _.
              Lands-if bs c (major == 2) _ _
                (λ _.
                  Lands-if bs c (ltb (length bs) (c + argument)) _ _ (λ _. tt)
                    λ fits. (omega arith, ground arith))
                λ _.
                  Lands-if bs c (major == 5) _ _
                    (λ _.
                      Lands-bind bs c _ _ (read_pairs-Lands c read argument end c r (omega arith) h)
                        (λ entries e _ l. (omega arith, l)))
                    (λ _. tt)

  read_item-Lands :
      (read : ℕ → CborRead Cbor) (c : ℕ)
      → LandsFrom (c + 1) read
      → Lands bs (c + 1) (read_item read bs c)
  unfolding read_item
  read_item-Lands read c r =
      Lands-if bs (c + 1) (leb (length bs) c) _ _ (λ _. tt)
        λ inside.
          let h : c + 1 ≤ length bs = ground arith in
          Lands-bind bs (c + 1) _ _ (read_cbor_unsigned-Lands (c + 1) (byte_at bs c % 32) h)
            λ argument e l m.
              by_major-Lands read (byte_at bs c / 32) argument e (λ d k. r d (omega arith)) m

  -- With more fuel than bytes left, an item is read to its end, behind its start and inside the
  -- bytes, or an exception is raised.
  read_cbor_fuel-Lands :
      (f c : ℕ) → length bs < f + c → c ≤ length bs → Lands bs (c + 1) (read_cbor_fuel f bs c)
  unfolding read_cbor_fuel
  read_cbor_fuel-Lands zero c h k = absurd (omega arith)
  read_cbor_fuel-Lands (suc f) c h k =
      read_item-Lands (read_cbor_fuel f bs) c λ d l m.
        Lands-earlier bs d (d + 1) _ (omega arith) (read_cbor_fuel-Lands f d (omega arith) m)

  -- From any position inside the bytes `_read_cbor` returns an item that ends behind that position
  -- and inside the bytes, or raises; it never lacks fuel.
  pub read_cbor-Lands : (c : ℕ) → c ≤ length bs → Lands bs (c + 1) (read_cbor bs c)
  unfolding read_cbor
  read_cbor-Lands c h = read_cbor_fuel-Lands (suc (length bs)) c (omega arith) h
