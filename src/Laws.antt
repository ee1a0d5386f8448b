-- ===== src/Laws.antt =====
-- What the theorems assume of the cluster and its companions: views of the state outside the
-- program, and how the calls move them. Each is a hypothesis of the theorems that name it.
pub mod Secrets
pub mod Status
pub mod Conditions
pub mod Vault
pub mod Access
