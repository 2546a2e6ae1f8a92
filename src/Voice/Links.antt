-- ===== src/Voice/Links.antt =====
-- A chain is walked to its end exactly when its entries link.
use mathlib.Core.Path.{subst}
use keel_verifier.Base.{
  ℕ, ◌+◌, String, ◌≡◌, refl, sym, ◌∙◌, ◌↔◌, true, false, Option, none, some, List, [], ◌∷◌, ℤ, lez,
  arith,
}
use keel_verifier.Json.{
  Json, null, str, obj, Fields, get, as_int, as_dict, eq_str, eq_str-eq, eq_str_refl,
}
use keel_verifier.Hex.{Bytes}
use keel_verifier.Voice.{
  ChainError, invalid_entry, Walk, end_at, broken, beyond, chain_entry_hash, link, entry_error,
  walk_chain,
}

module _ (sha256 : Bytes → Bytes) (canonical_json : Fields → Bytes)
    (extra : ℕ → Fields → Option ChainError) where
  -- What one entry has to satisfy behind the hash `previous` and the sequence number `last`.
  pub record IsLink (index : ℕ) (previous : String) (last next : ℤ) (item : Fields) : Type 0 where
    pub allowed : extra index item ≡ none
    pub points_back : get item "previous_content_hash" ≡ str previous
    pub has_sequence : as_int (get item "artifact_sequence") ≡ some next
    pub increases : lez next last ≡ false
    pub sealed : get item "content_hash" ≡ str (chain_entry_hash sha256 canonical_json item)

  -- The entries link from `previous` and `last` on, and `final` is the hash of the last one.
  pub data Linked : ℕ → String → ℤ → List Json → String → Type 0 where
    stop : {index : ℕ} {previous : String} {last : ℤ} → Linked index previous last [] previous
    next :
        {index : ℕ} {previous final : String} {last number : ℤ} {item : Fields} {rest : List Json}
        → IsLink index previous last number item
        → Linked (index + 1) (chain_entry_hash sha256 canonical_json item) number rest final
        → Linked index previous last (obj item ∷ rest) final

  link-none :
      (index : ℕ) (previous : String) (sequence : Option ℤ) (item : Fields)
      → link sha256 canonical_json index previous sequence item ≡ none
      → (eq_str (get item "previous_content_hash") previous ≡ true)
        × (n : ℤ) × (sequence ≡ some n)
        × (eq_str (get item "content_hash") (chain_entry_hash sha256 canonical_json item) ≡ true)
  link-none index previous none item h = ground arith
  link-none index previous (some n) item h = (ground arith, n, refl, ground arith)

  beyond-some :
      (last n : ℤ) (o : Option ℤ) → beyond last o ≡ some n → (o ≡ some n) × (lez n last ≡ false)
  beyond-some last n none h = cc
  beyond-some last n (some m) h = ground arith

  link-IsLink :
      (index : ℕ) (previous : String) (last : ℤ) (item : Fields)
      → extra index item ≡ none
      → link sha256 canonical_json index previous
          (beyond last (as_int (get item "artifact_sequence")))
          item
        ≡ none
      → (n : ℤ) × IsLink index previous last n item
  link-IsLink index previous last item x h =
      let (back, n, b, seal) = link-none index previous _ item h in
      let q = beyond-some last n _ b in
      (
        n,
        record {
          allowed = x;
          points_back = eq_str-eq _ _ back;
          has_sequence = q.0;
          increases = q.1;
          sealed = eq_str-eq _ _ seal;
        },
      )

  entry_error-none :
      (index : ℕ) (previous : String) (last : ℤ) (item : Fields)
      → entry_error sha256 canonical_json extra index previous last item ≡ none
      → (n : ℤ) × IsLink index previous last n item
  entry_error-none index previous last item h = by_extra (extra index item) refl
    where
      by_extra :
          (o : Option ChainError)
          → extra index item ≡ o
          → (n : ℤ) × IsLink index previous last n item
      by_extra none x = link-IsLink index previous last item x (rw (x, entry_error) at h)
      by_extra (some e) x = cc (rw (x, entry_error) at h)

  link-of_IsLink :
      (index : ℕ) (previous : String) (last n : ℤ) (item : Fields)
      → IsLink index previous last n item
      → link sha256 canonical_json index previous
          (beyond last (as_int (get item "artifact_sequence")))
          item
        ≡ none
  link-of_IsLink index previous last n item l =
      rw (l.points_back, l.has_sequence, l.increases, l.sealed, beyond)
        (ground
          (arith, eq_str_refl previous, eq_str_refl (chain_entry_hash sha256 canonical_json item)))

  IsLink-entry_error :
      (index : ℕ) (previous : String) (last n : ℤ) (item : Fields)
      → IsLink index previous last n item
      → entry_error sha256 canonical_json extra index previous last item ≡ none
  IsLink-entry_error index previous last n item l =
      rw (l.allowed, entry_error) (link-of_IsLink index previous last n item l)

  abbrev walk : ℕ → String → ℤ → List Json → Walk
  walk = walk_chain sha256 canonical_json extra

  walk_chain-step :
      (index : ℕ) (previous : String) (last n : ℤ) (item : Fields) (rest : List Json)
      → IsLink index previous last n item
      → walk index previous last (obj item ∷ rest)
        ≡ walk (index + 1) (chain_entry_hash sha256 canonical_json item) n rest
  unfolding walk_chain
  walk_chain-step index previous last n item rest l =
      rw (IsLink-entry_error index previous last n item l, l.has_sequence, walk_chain)

  walk_chain-broken :
      (index : ℕ) (previous : String) (last : ℤ) (item : Fields) (rest : List Json) (e : ChainError)
      → entry_error sha256 canonical_json extra index previous last item ≡ some e
      → walk index previous last (obj item ∷ rest) ≡ broken e
  unfolding walk_chain
  walk_chain-broken index previous last item rest e x = rw (x, walk_chain)

  unfold_nil :
      (index : ℕ) (previous : String) (last : ℤ) → walk index previous last [] ≡ end_at previous
  unfolding walk_chain
  unfold_nil index previous last = refl

  walk_chain-other :
      (index : ℕ) (previous : String) (last : ℤ) (v : Json) (rest : List Json)
      → as_dict v ≡ none
      → walk index previous last (v ∷ rest) ≡ broken (invalid_entry index)
  unfolding walk_chain
  walk_chain-other index previous last (obj d) rest h = cc
  walk_chain-other index previous last null rest h = refl
  walk_chain-other index previous last _ rest h = refl

  walk_chain-Linked :
      (index : ℕ) (previous final : String) (last : ℤ) (chain : List Json)
      → walk index previous last chain ≡ end_at final
      → Linked index previous last chain final
  walk_chain-Linked index previous final last [] h =
      subst (Linked index previous last []) (cc (unfold_nil index previous last, h)) stop
  walk_chain-Linked index previous final last (obj item ∷ rest) h =
      by_error (entry_error sha256 canonical_json extra index previous last item) refl λ n.
        walk_chain-Linked (index + 1) (chain_entry_hash sha256 canonical_json item) final n rest
    where
      by_error :
          (o : Option ChainError)
          → entry_error sha256 canonical_json extra index previous last item ≡ o
          → ((n : ℤ)
              → walk (index + 1) (chain_entry_hash sha256 canonical_json item) n rest ≡ end_at final
              → Linked (index + 1) (chain_entry_hash sha256 canonical_json item) n rest final)
          → Linked index previous last (obj item ∷ rest) final
      by_error (some e) x ih = cc (walk_chain-broken index previous last item rest e x, h)
      by_error none x ih =
          let (n, l) = entry_error-none index previous last item x in
          next l (ih n (sym (walk_chain-step index previous last n item rest l) ∙ h))
  walk_chain-Linked index previous final last (null ∷ rest) h =
      cc (walk_chain-other index previous last null rest refl, h)
  walk_chain-Linked index previous final last (v ∷ rest) h =
      cc (walk_chain-other index previous last v rest refl, h)

  Linked-walk_chain :
      {index : ℕ} {previous final : String} {last : ℤ} {chain : List Json}
      → Linked index previous last chain final
      → walk index previous last chain ≡ end_at final
  Linked-walk_chain stop = unfold walk_chain in refl
  Linked-walk_chain (next {rest = rest} l ls) =
      walk_chain-step _ _ _ _ _ rest l ∙ Linked-walk_chain ls

  -- The walk reaches the hash `final` exactly when the entries link up to it.
  pub walk_chain_iff :
      (index : ℕ) (previous final : String) (last : ℤ) (chain : List Json)
      → (walk index previous last chain ≡ end_at final) ↔ Linked index previous last chain final
  walk_chain_iff index previous final last chain =
      (walk_chain-Linked index previous final last chain, λ l. Linked-walk_chain l)
