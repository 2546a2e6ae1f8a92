-- ===== src/Examples.antt =====
-- Runs of the model on concrete inputs, one for each result that has hypotheses.
mod Logs
mod Keys
mod Signatures
mod Chains
mod Registries
mod Delegations
mod Revocations
mod Roots
mod Packs
mod Evidence
