-- ===== src/Authority/Edges.antt =====
-- `_authority_chain_edges_in_order`: the edges that the digests of the chain name, in its order.
use keel_verifier.Base.{String, Bool, true, false, Option, none, some, List, [], ◌∷◌}
use keel_verifier.Json.{Json, str, arr, obj, Items, nil, cons, Fields, get, eq_str}
use keel_verifier.Authority.Keys.{record_of}

-- An edge with what the code reads off it again: `edge["payload"]`, and the record of the key that
-- the payload names.
pub record Edge : Type 0 where
  pub fields : Fields
  pub payload : Fields
  pub key_record : Fields

abbrev or_later : Option Fields → Fields → Bool → Option Fields
or_later (some later) edge here = some later
or_later none edge true = some edge
or_later none edge false = none

-- `edge_by_digest.get(digest)`: of several edges with one digest, the last.
unfoldable pub edge_by_digest : Items → String → Option Fields
edge_by_digest nil digest = none
edge_by_digest (cons (obj edge) edges) digest =
    or_later (edge_by_digest edges digest) edge (eq_str (get edge "edge_digest") digest)
edge_by_digest (cons _ edges) digest = edge_by_digest edges digest

abbrev pub key_id_of : Json → Option String
key_id_of (obj signing_key) = elim (get signing_key "key_id") [ str s ↦ some s | _ ↦ none ]
key_id_of _ = none

abbrev pub with_record : Fields → Fields → Option Fields → Option Edge
with_record edge payload none = none
with_record edge payload (some entry) =
    some (record { fields = edge; payload = payload; key_record = entry })

abbrev pub cons_edge : Option Edge → Option (List Edge) → Option (List Edge)
cons_edge none rest = none
cons_edge (some e) none = none
cons_edge (some e) (some es) = some (e ∷ es)

module _ (entries : List Fields) where
  abbrev pub by_key_id : Fields → Fields → Option String → Option Edge
  by_key_id edge payload none = none
  by_key_id edge payload (some key_id) = with_record edge payload (record_of entries key_id)

  abbrev pub by_payload : Fields → Json → Option Edge
  by_payload edge (obj payload) = by_key_id edge payload (key_id_of (get payload "signing_key"))
  by_payload edge _ = none

  abbrev pub read_edge : Option Fields → Option Edge
  read_edge none = none
  read_edge (some edge) = by_payload edge (get edge "payload")

  unfoldable pub edges_for : Items → Items → Option (List Edge)
  unfolding edge_by_digest record_of
  edges_for supplied nil = some []
  edges_for supplied (cons (str digest) digests) =
      cons_edge (read_edge (edge_by_digest supplied digest)) (edges_for supplied digests)
  edges_for supplied (cons _ digests) = none

  abbrev from_lists : Json → Json → Option (List Edge)
  from_lists (arr digests) (arr supplied) = edges_for supplied digests
  from_lists _ supplied = none

  abbrev from_payload : Json → Json → Option (List Edge)
  from_payload (obj payload) supplied = from_lists (get payload "edge_digests") supplied
  from_payload _ supplied = none

  abbrev from_chain : Json → Json → Option (List Edge)
  from_chain (obj chain) supplied = from_payload (get chain "payload") supplied
  from_chain _ supplied = none

  unfoldable pub chain_edges_in_order : Fields → Option (List Edge)
  unfolding edges_for
  chain_edges_in_order input_doc =
      from_chain (get input_doc "authority_chain") (get input_doc "authority_edges")
