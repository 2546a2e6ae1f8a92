-- ===== src/Claims/Registry/Composed.antt =====
-- What a composed registry is, without fuel: a chain of pinned bases whose claims are joined.
use mathlib.Core.Path.{subst}
use text.Mathlib.TextEquality.{eq_iff}
use keel_verifier.Base.{
  ℕ, zero, suc, ◌<◌, String, ◌≡◌, ◌≢◌, ◌↔◌, refl, ap, Bool, false, ◌||◌, Option, none, some, List,
  [], ◌∷◌, ◌++◌, any, str_eq, Bool-cases, Option-cases, inl, inr, arith,
}
use keel_verifier.Json.{Json, arr, Fields, of_list, get, as_list, as_dict}
use keel_verifier.Hex.{Bytes}
use keel_verifier.Trust.Select.Laws.{Among}
use keel_verifier.Claims.{text_in}
use keel_verifier.Claims.Registry.{
  Composition, composed, refused, out_of_fuel, extended, extension_of, joined_claims, with_claims,
  shares, names_of, set_field, load_base, compose_registry_payload,
}
use keel_verifier.Claims.Registry.Pinned.{IsBase, load_base-IsBase, IsBase-load_base}

-- The result has the claims of the base in front of those of the payload, and no name is in both.
pub record IsExtension (payload base result : Fields) : Type 0 where
  pub base_claims : List Json
  pub more_claims : List Json
  pub of_base : as_list (get base "claims") ≡ some base_claims
  pub of_payload : as_list (get payload "claims") ≡ some more_claims
  pub apart : (n : String) → Among n (names_of more_claims) → ¬ Among n (names_of base_claims)
  pub joined : set_field "claims" (arr (of_list (base_claims ++ more_claims))) payload ≡ result

or-false : (a b : Bool) → (a || b) ≡ false → (a ≡ false) × (b ≡ false)
or-false a b h = ground arith

any-false :
    {A : Type 0} (p : A → Bool) (xs : List A)
    → any p xs ≡ false
    → (a : A) → Among a xs
    → p a ≡ false
any-false p [] h a m = absurd m
any-false p (x ∷ xs) h a (inl e) = rw e (or-false (p x) (any p xs) h).0
any-false p (x ∷ xs) h a (inr m) = any-false p xs (or-false (p x) (any p xs) h).1 a m

any_none :
    {A : Type 0} (p : A → Bool) (xs : List A)
    → ((a : A) → Among a xs → p a ≡ false)
    → any p xs ≡ false
any_none p [] h = refl
any_none p (x ∷ xs) h = rw (h x (inl refl), any_none p xs (λ a m. h a (inr m))) refl

text_in-false : (names : List String) (s : String) → text_in names s ≡ false → ¬ Among s names
text_in-false names s h m =
    let same = (eq_iff s s).1 refl in cc (same, any-false (str_eq s) names h s m)

text_in_none : (names : List String) (s : String) → ¬ Among s names → text_in names s ≡ false
text_in_none names s h = any_none (str_eq s) names (λ a m. elim (Bool-cases (str_eq s a)) [
  | inl e ↦ absurd (h (rw ((eq_iff s a).0 e) m))
  | inr e ↦ e
])

joined-IsExtension :
    (payload base result : Fields) (b m : Option (List Json))
    → as_list (get base "claims") ≡ b
    → as_list (get payload "claims") ≡ m
    → with_claims payload (joined_claims b m) ≡ some result
    → IsExtension payload base result
joined-IsExtension payload base result none m p q h = cc
joined-IsExtension payload base result (some bs) none p q h = cc
joined-IsExtension payload base result (some bs) (some ms) p q h =
    elim (Bool-cases (shares (names_of bs) (names_of ms))) [
      | inl e ↦ cc (rw e at h)
      | inr e ↦ record {
        base_claims = bs;
        more_claims = ms;
        of_base = p;
        of_payload = q;
        apart = λ n k.
            text_in-false (names_of bs) n (any-false (text_in (names_of bs)) (names_of ms) e n k);
        joined = cc (rw e at h);
      }
    ]

IsExtension-extension_of :
    (payload base result : Fields)
    → IsExtension payload base result
    → extension_of payload base ≡ some result
IsExtension-extension_of payload base result x =
    let apart : shares (names_of x.base_claims) (names_of x.more_claims) ≡ false =
      any_none (text_in (names_of x.base_claims)) (names_of x.more_claims)
        (λ n k. text_in_none (names_of x.base_claims) n (x.apart n k)) in
    rw (x.of_base, x.of_payload, apart, x.joined) refl

module _ (sha256 : Bytes → Bytes) (json_loads : Bytes → Option Json)
    (bundled : String → Option Bytes) where
  -- A payload without an extension is its own result; one with an extension rests on a composed base.
  pub data Composes : Fields → Fields → Type 0 where
    alone : {payload : Fields} → as_dict (get payload "extends") ≡ none → Composes payload payload
    onto :
        {payload result : Fields} (extension base whole : Fields)
        → as_dict (get payload "extends") ≡ some extension
        → IsBase sha256 json_loads bundled extension base
        → Composes base whole
        → IsExtension payload whole result
        → Composes payload result

  extended-Composes :
      (payload extension base result : Fields) (c : Composition)
      → as_dict (get payload "extends") ≡ some extension
      → IsBase sha256 json_loads bundled extension base
      → ((whole : Fields) → c ≡ composed whole → Composes base whole)
      → extended payload c ≡ composed result
      → Composes payload result
  extended-Composes payload extension base result refused e b ih h = cc
  extended-Composes payload extension base result out_of_fuel e b ih h = cc
  extended-Composes payload extension base result (composed whole) e b ih h =
      elim (Option-cases (extension_of payload whole)) [
        | inl f ↦ cc (rw f at h)
        | inr (r, f) ↦
            let same : r ≡ result = cc (rw f at h) in
            onto extension base whole e b (ih whole refl)
              (joined-IsExtension payload whole result _ _ refl refl (rw same at f))
      ]

  compose-Composes :
      (fuel : ℕ) (payload result : Fields)
      → compose_registry_payload sha256 json_loads bundled fuel payload ≡ composed result
      → Composes payload result
  unfolding compose_registry_payload
  compose-Composes zero payload result h = cc
  compose-Composes (suc fuel) payload result h =
      elim (Option-cases (as_dict (get payload "extends"))) [
        | inl e ↦
            let same : payload ≡ result = cc (rw (e, compose_registry_payload) at h) in
            subst (Composes payload) same (alone e)
        | inr (extension, e) ↦ elim (Option-cases (load_base sha256 json_loads bundled extension)) [
          | inl f ↦ cc (rw (e, f, compose_registry_payload) at h)
          | inr (base, f) ↦
              extended-Composes payload extension base result
                (compose_registry_payload sha256 json_loads bundled fuel base) e
                (load_base-IsBase sha256 json_loads bundled extension base f)
                (λ whole k. compose-Composes fuel base whole k)
                (rw (e, f, compose_registry_payload) at h)
        ]
      ]

  Composes-compose :
      (payload result : Fields)
      → Composes payload result
      → (fuel : ℕ) × (compose_registry_payload sha256 json_loads bundled fuel payload
          ≡ composed result)
  unfolding compose_registry_payload
  Composes-compose payload result (alone e) = (1, rw (e, compose_registry_payload) refl)
  Composes-compose payload result (onto extension base whole e b rest x) =
      let (fuel, h) = Composes-compose base whole rest in
      (
        suc fuel,
        rw
            (
              e,
              IsBase-load_base sha256 json_loads bundled extension base b,
              compose_registry_payload,
              h,
              IsExtension-extension_of payload whole result x,
            )
            refl,
      )

  -- A payload is composed to a result, with some fuel, exactly when the result is the payload itself
  -- without an extension, or has the claims of the composed base in front of its own, with no name in
  -- both, where the base is the bundled registry that the extension names, with the digest and the
  -- version that it pins.
  pub compose_iff :
      (payload result : Fields)
      → ((fuel : ℕ) × (compose_registry_payload sha256 json_loads bundled fuel payload
            ≡ composed result))
        ↔ Composes payload result
  compose_iff payload result =
      ((λ (fuel, h). compose-Composes fuel payload result h), Composes-compose payload result)

  -- The bases of a payload, each named by the one before it, come to an end after `n` steps: at a
  -- payload without an extension, or at a base that is refused.
  pub data HasBases : Fields → ℕ → Type 0 where
    no_extension : {payload : Fields} → as_dict (get payload "extends") ≡ none → HasBases payload 0
    no_base :
        {payload : Fields} (extension : Fields)
        → as_dict (get payload "extends") ≡ some extension
        → ((base : Fields) → ¬ IsBase sha256 json_loads bundled extension base)
        → HasBases payload 0
    next_base :
        {payload : Fields} {n : ℕ} (extension base : Fields)
        → as_dict (get payload "extends") ≡ some extension
        → IsBase sha256 json_loads bundled extension base
        → HasBases base n
        → HasBases payload (suc n)

  no_load_base :
      (extension : Fields)
      → ((base : Fields) → ¬ IsBase sha256 json_loads bundled extension base)
      → load_base sha256 json_loads bundled extension ≡ none
  no_load_base extension h = elim (Option-cases (load_base sha256 json_loads bundled extension)) [
    | inl e ↦ e
    | inr (base, e) ↦ absurd (h base (load_base-IsBase sha256 json_loads bundled extension base e))
  ]

  extended_settled :
      (payload : Fields) (c : Composition) → c ≢ out_of_fuel → extended payload c ≢ out_of_fuel
  extended_settled payload out_of_fuel n h = n refl
  extended_settled payload refused n h = cc h
  extended_settled payload (composed base) n h = elim (Option-cases (extension_of payload base)) [
    | inl e ↦ cc (rw e at h)
    | inr (r, e) ↦ cc (rw e at h)
  ]

  -- When the bases of a payload end after `n` steps, every fuel above `n` is enough, and all give the
  -- same outcome, composed or refused.
  pub compose_settles :
      (payload : Fields) (n fuel : ℕ)
      → HasBases payload n
      → n < fuel
      → (compose_registry_payload sha256 json_loads bundled fuel payload ≢ out_of_fuel)
        × (compose_registry_payload sha256 json_loads bundled fuel payload
            ≡ compose_registry_payload sha256 json_loads bundled (suc n) payload)
  unfolding compose_registry_payload
  compose_settles payload n zero b h = absurd (omega (arith, h))
  compose_settles payload n (suc fuel) (no_extension e) h =
      rw (e, compose_registry_payload) ((λ k. cc k), refl)
  compose_settles payload n (suc fuel) (no_base extension e none_is) h =
      rw (e, no_load_base extension none_is, compose_registry_payload) ((λ k. cc k), refl)
  compose_settles payload (suc n) (suc fuel) (next_base extension base e b rest) h =
      let loaded = IsBase-load_base sha256 json_loads bundled extension base b in
      let below = compose_settles base n fuel rest (omega (arith, h)) in
      let settled =
        extended_settled payload (compose_registry_payload sha256 json_loads bundled fuel base)
          below.0 in
      rw (e, loaded, compose_registry_payload) (settled, ap (extended payload) below.1)
