-- ===== src/Authority.antt =====
-- keel_verifier/verifier.py: delegated authority. Each edge of a chain may only narrow what the
-- edge before it grants: action verbs, resources and constraints. Chain puts the edges together.
pub mod Values
pub mod Verbs
pub mod Resources
pub mod Constraints
pub mod Outcome
pub mod Library
pub mod Keys
pub mod Edges
pub mod Chain
pub mod Temporal
pub mod Signer
pub mod Revocation
pub mod Root
