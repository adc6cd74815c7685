-- ===== src/Api.antt =====
-- api/src: the typed client of the contract.
pub mod CipherstoreClient
pub mod ContractHistory
pub mod ProgramPolicy
pub mod VulnSealApi
pub mod RoleSession
mod Trials
