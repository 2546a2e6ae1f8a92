-- ===== src/Trust.antt =====
-- keel_verifier/verifier.py: the keys that a signature may be checked with. An entry of a key
-- manifest is a JSON object. `datetime.fromisoformat` is a parameter; instants are microseconds in
-- UTC from a fixed start, and a stamp without a zone is read as UTC.
pub mod Window
pub mod Select
pub mod Resolve
