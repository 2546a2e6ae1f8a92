-- ===== src/CoSignature.antt =====
-- keel_verifier/permit_co_signature.py: the byte-level readers of a co-signature. Bytes are numbers
-- below 256, and a cursor is a position in them. Every reader either raises a ValueError or returns
-- its value with the position behind it.
pub mod Reader
pub mod Der
pub mod Cbor
pub mod Base64Url
pub mod Protocol
pub mod Verify
