-- ===== src/Authority/Chain/Empty.antt =====
-- A chain that lists no edge.
use keel_verifier.Base.{String, ◌≡◌, refl, Option, some, List}
use text.Mathlib.TextEquality.{eq_iff}
use keel_verifier.Json.{arr, obj, nil, Items, Fields, get}
use keel_verifier.Hex.{Bytes}
use keel_verifier.Authority.Outcome.{raised}
use keel_verifier.Authority.Library.{Library}
use keel_verifier.Authority.Edges.{chain_edges_in_order, edges_for}
use keel_verifier.Authority.Chain.{
  envelope_version, authority_digest, adjudicate_permit_authority_chain_v1,
}
use keel_verifier.Authority.Chain.Complete.{is_text_intro}
use keel_verifier.Authority.Chain.Payload.{expected_payload}

-- A v7 permit whose digest is that of a chain payload with no edge digests gets no claim, when the
-- document has a list of edges: the adjudication raises, whatever these edges, the keys and the other
-- fields are.
pub empty_chain_raises :
    (library : Library) (load : String → Option (List Fields)) (input_doc : Fields)
    (key_manifest_source : Option String) (trust_root : Option Fields)
    (permit chain payload : Fields) (supplied : Items) (bytes : Bytes)
    → get input_doc "permit" ≡ obj permit
    → envelope_version permit ≡ some "v7"
    → get input_doc "authority_chain" ≡ obj chain
    → get input_doc "authority_edges" ≡ arr supplied
    → get chain "payload" ≡ obj payload
    → get payload "edge_digests" ≡ arr nil
    → library.rfc8785_dumps (obj payload) ≡ some bytes
    → authority_digest permit ≡ some (library.sha256_hex bytes)
    → adjudicate_permit_authority_chain_v1 library load input_doc key_manifest_source trust_root
      ≡ raised
unfolding adjudicate_permit_authority_chain_v1 chain_edges_in_order edges_for expected_payload
empty_chain_raises library load input_doc source root permit chain payload supplied bytes p v c s q
      e b d =
    let same = (eq_iff (library.sha256_hex bytes) (library.sha256_hex bytes)).1 refl in
    rw (p, is_text_intro _ _ v, d, c, s, q, e, q, b, same) refl
