-- ===== src/Proofs.antt =====
-- keel_verifier/authority_proof.py: the packs of an authority-chain proof export. A refusal pack shows
-- that a permit was refused because an edge of each recorded chain had been revoked.
pub mod Recorded
pub mod Denial
pub mod Overall
pub mod Chains
pub mod Laws
pub mod Allow
pub mod Sound
pub mod Dropped
use keel_verifier.Base.{String, Option, none, some, List, [], ◌∷◌, map, if◌then◌else◌}
use keel_verifier.Json.{
  Json, null, bool, int, str, arr, obj, Items, nil, cons, Fields, end, get, to_list, as_dict,
  truthy, eq_str,
}
use keel_verifier.Authority.Values.{characters, keys}

-- `for item in v or []`: a number or `True` raises.
unfoldable pub iterate : Json → Option (List Json)
iterate null = some []
iterate (bool b) = if b then none else some []
iterate (int n) = if truthy (int n) then none else some []
iterate (str s) = some (characters s)
iterate (arr xs) = some (to_list xs)
iterate (obj d) = some (keys d)

-- `[item for item in xs if isinstance(item, dict)]`
abbrev pub dicts_of : List Json → List Fields
dicts_of [] = []
dicts_of (obj d ∷ vs) = d ∷ dicts_of vs
dicts_of (v ∷ vs) = dicts_of vs

-- `v or {}`, of which a key is read next.
abbrev pub dict_or_falsy : Json → Option Fields
dict_or_falsy v = if truthy v then as_dict v else some end

abbrev pub lift_list {ℓ m} : {A : Type ℓ} {B : Type m} → (A → B) → Option A → Option B
lift_list f none = none
lift_list f (some a) = some (f a)

abbrev first_named : String → List Fields → Option Fields
first_named name [] = none
first_named name (claim ∷ claims) =
    let rest = first_named name claims in
    if eq_str (get claim "claim") name then some claim else rest

-- `_pack_claim`; the outer `none` is an exception.
unfoldable pub pack_claim : Fields → String → Option (Option Fields)
unfolding iterate
pack_claim pack name =
    lift_list (λ vs. first_named name (dicts_of vs)) (iterate (get pack "authority_chain_proofs"))

abbrev pub signed_events : List Fields → List Fields
signed_events [] = []
signed_events (item ∷ items) = elim (get item "signed_event") [
  | obj event ↦ event ∷ signed_events items
  | _ ↦ signed_events items
]

abbrev events_of_claim : Option Fields → Option (List Fields)
events_of_claim none = some []
events_of_claim (some claim) =
    lift_list (λ vs. signed_events (dicts_of vs)) (iterate (get claim "edge_revoke_events"))

-- `_signed_edge_status_events(_pack_claim(pack, "authority.edge_revocation.v1"))`
unfoldable pub signed_edge_status_events : Fields → Option (List Fields)
unfolding pack_claim
signed_edge_status_events pack = elim (pack_claim pack "authority.edge_revocation.v1") [
  | none ↦ none
  | some claim ↦ events_of_claim claim
]
