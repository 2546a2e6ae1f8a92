-- ===== src/Voice/Binding.antt =====
-- The last hash of a chain binds every entry before it.
use mathlib.Core.List.{List-discrete}
use native.Mathlib.Decide.{ℕ_discrete}
use text.Mathlib.TextLemmas.{append_cancel_left}
use keel_verifier.Base.{
  ℕ, String, ◌≡◌, refl, ◌∙◌, ap, List, ◌∷◌, ◌⊎◌, inl, inr, arith, length, ℤ, Option,
}
use keel_verifier.Json.{Json, str, obj, Fields, get, without, or_null, lookup-without}
use keel_verifier.Hex.{Bytes}
use keel_verifier.Hex.RoundTrip.{AreBytes, to_hex_inj}
use keel_verifier.Merkle.Binding.{Collision}
use keel_verifier.Voice.{ChainError, chain_entry_hash, walk_chain, end_at}
use keel_verifier.Voice.Links.{IsLink, Linked, stop, next, walk_chain_iff}

-- What an entry's hash is taken of.
abbrev pub material : Fields → Fields
material = without "content_hash"

module _ (sha256 : Bytes → Bytes) (canonical_json : Fields → Bytes)
    (extra : ℕ → Fields → Option ChainError) (bytes : (b : Bytes) → AreBytes (sha256 b))
    (faithful : (m n : Fields) (s t : String)
      → canonical_json m ≡ canonical_json n
      → get m "previous_content_hash" ≡ str s
      → get n "previous_content_hash" ≡ str t
      → s ≡ t) where
  -- Entry by entry, the two chains have the same hashed text.
  abbrev pub SameTexts : List Json → List Json → Type 0
  SameTexts (obj x ∷ xs) (obj y ∷ ys) =
      (canonical_json (material x) ≡ canonical_json (material y)) × SameTexts xs ys
  SameTexts _ _ = Unit

  same_text :
      (x y : Fields)
      → chain_entry_hash sha256 canonical_json x ≡ chain_entry_hash sha256 canonical_json y
      → (canonical_json (material x) ≡ canonical_json (material y)) ⊎ Collision sha256
  unfolding chain_entry_hash
  same_text x y e =
      decide (canonical_json (material x)) (canonical_json (material y))
        (to_hex_inj _ _ (bytes _) (bytes _) (append_cancel_left "sha256:" _ _ e))
    where
      decide : (u v : Bytes) → sha256 u ≡ sha256 v → (u ≡ v) ⊎ Collision sha256
      decide u v h = elim (List-discrete ℕ_discrete u v) [ yes p ↦ inl p | no n ↦ inr (u, v, n, h) ]

  -- The entry points back to the same hash once its material does.
  get-material :
      (x : Fields) → get (material x) "previous_content_hash" ≡ get x "previous_content_hash"
  get-material x = ap or_null (lookup-without "content_hash" "previous_content_hash" x refl)

  -- The outcome at two links, from that at the entries behind them.
  bind_step :
      (index : ℕ) (p q : String) (k l m n : ℤ) (x y : Fields) (xs ys : List Json)
      → IsLink sha256 canonical_json extra index p k m x
      → IsLink sha256 canonical_json extra index q l n y
      → ((chain_entry_hash sha256 canonical_json x ≡ chain_entry_hash sha256 canonical_json y)
          × SameTexts xs ys)
        ⊎ Collision sha256
      → ((p ≡ q) × SameTexts (obj x ∷ xs) (obj y ∷ ys)) ⊎ Collision sha256
  bind_step index p q k l m n x y xs ys a b (inr c) = inr c
  bind_step index p q k l m n x y xs ys a b (inl (h, same)) = step (same_text x y h)
    where
      step :
          (canonical_json (material x) ≡ canonical_json (material y)) ⊎ Collision sha256
          → ((p ≡ q) × SameTexts (obj x ∷ xs) (obj y ∷ ys)) ⊎ Collision sha256
      step (inr c) = inr c
      step (inl t) = inl (
        faithful (material x) (material y) p q t (get-material x ∙ a.points_back)
            (get-material y ∙ b.points_back),
        (t, same),
      )

  Linked-binds :
      {index : ℕ} {p q f g : String} {k l : ℤ} {xs ys : List Json}
      → Linked sha256 canonical_json extra index p k xs f
      → Linked sha256 canonical_json extra index q l ys g
      → length xs ≡ length ys
      → f ≡ g
      → ((p ≡ q) × SameTexts xs ys) ⊎ Collision sha256
  Linked-binds stop stop n e = inl (e, tt)
  Linked-binds stop (next b bs) n e = absurd (omega arith)
  Linked-binds (next a links) stop n e = absurd (omega arith)
  Linked-binds (next a links) (next b more) n e =
      bind_step _ _ _ _ _ _ _ _ _ _ _ a b (Linked-binds links more (omega arith) e)

  -- Two chains of as many entries that are walked to one last hash have the same hashed text in
  -- every entry, or two texts with one hash are at hand.
  pub walk_chain-binds :
      (index : ℕ) (previous final : String) (k : ℤ) (xs ys : List Json)
      → length xs ≡ length ys
      → walk_chain sha256 canonical_json extra index previous k xs ≡ end_at final
      → walk_chain sha256 canonical_json extra index previous k ys ≡ end_at final
      → SameTexts xs ys ⊎ Collision sha256
  walk_chain-binds index previous final k xs ys n a b = second (
      Linked-binds ((walk_chain_iff sha256 canonical_json extra index previous final k xs).0 a)
        ((walk_chain_iff sha256 canonical_json extra index previous final k ys).0 b) n refl)
    where
      second :
          ((previous ≡ previous) × SameTexts xs ys) ⊎ Collision sha256
          → SameTexts xs ys ⊎ Collision sha256
      second (inl (e, s)) = inl s
      second (inr c) = inr c
