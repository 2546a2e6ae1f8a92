-- ===== src/Lib.antt =====
-- keel-verifier
--
-- keel-verifier checks, away from the service that issued them, the artifacts of Keel: checkpoint
-- logs, exports, permits with their co-signatures, voice attestations, delegation chains. Each check
-- turns documents into claims with a verdict, under keys that a manifest entitles to sign.
--
-- Merkle, Monitor: keel_verifier/monitor.py. Merkle has `_hash_node` and `_merkle_root_bytes`;
--   Monitor has the checks of a consistency surface, one constructor for each message; Monitor/Loop
--   has the pins, the state file and the cycles of `cmd_monitor`, with the document in the file as an
--   explicit state and the fetched surfaces as a function of the cycle's index.
-- Trust: keel_verifier/verifier.py, `_parse_iso_or_none` to `_select_pinned_trust_key` and
--   `_resolve_from_manifest`, `_resolve_trust_key`. Times are numbers; the parser of timestamps, HTTP
--   and the manifest loader are parameters.
-- CoSignature: keel_verifier/permit_co_signature.py. Base64Url, Cbor and Der are its decoders,
--   Protocol has the COSE key and what the claim is compared with, Verify has `verify_protocol`. The
--   record Crypto holds what the code takes from Python's library and from the cryptography package.
-- Voice: keel_verifier/verifier.py, the hash chain of a voice attestation.
-- Authority: keel_verifier/verifier.py, the claims on a chain of delegations. Verbs, Resources and
--   Constraints say how an edge narrows the edge before it; Keys and Edges find the edges of a
--   document's chain and the keys that sign them. Chain is
--   `_adjudicate_permit_authority_chain_v1`: Signed, Payload, Narrowing and Action have its checks,
--   Spec and Authorised what it asks for, without the order. Temporal, Revocation and Root have the
--   claims on revoked keys, revoked edges and the status of the root, and Signer the keys that sign
--   such events. Outcome chains the checks as the code's returns are chained, with an exception as
--   a result of its own; the record Library holds what the code takes from outside.
-- Proofs: keel_verifier/authority_proof.py, which calls the claims of Authority on the packs of an
--   export. Allow has the packs of allowed permits and the loop over the packs, Recorded and Denial
--   those of refusals.
-- Scope: keel_verifier/verifier.py, the chain evidence of an export: its order, where it starts, that
--   it is linked, the Merkle root of the disclosed records; Freshness has the check on a declared end
--   that is said to be the latest checkpoint.
-- Claims: keel_verifier/verdicts.py, the claims of keel_verifier/verifier.py and the requests of
--   keel_verifier/semantics.py. Registry composes and loads a claim registry, Claims aggregates and
--   merges verdicts, Required has the claims that stand for what is missing or
--   graded too low, Enforce what a verification ends with when a pack requires claims.
-- Base, Json, Hex: shared names, Python's JSON values with `==`, `bool` and `get`, bytes and hex.
-- Examples: runs on concrete inputs.
--
-- Bounds. JSON numbers are integers: a float is not a value of the model. A dict is the list of its
-- items in order. Python's `strip`, `isdigit` and `int` are modelled on the characters that the code
-- is given in practice: ASCII digits, and the white space of `str.isspace`. Recursion is on fuel where
-- the code's is not on a part: a Merkle root has the number of its nodes, a bit length the number
-- itself, the CBOR reader one more than the number of its bytes, and these never run out; decimal
-- digits are printed up to 65, one more than a digest has; the chain of registries has the fuel that
-- the caller gives, and to run out of it is an outcome apart from a result and from an exception.
--
-- Not modelled: signature schemes, SHA-256, JSON parsing, RFC 8785 and canonical JSON (parameters);
-- rendering, the command line, files and the network; the other artifacts of verifier.py. In Authority
-- and Proofs the messages and the evidence paths of a claim are left out, the loader of key manifests and
-- the check of a permit decision are parameters, and canonical JSON always gives bytes.
pub mod Base
pub mod Json
pub mod Hex
pub mod Merkle
pub mod Monitor
pub mod Trust
pub mod CoSignature
pub mod Voice
pub mod Authority
pub mod Proofs
pub mod Scope
pub mod Claims
mod Examples
