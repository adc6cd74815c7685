-- ===== src/Contract.antt =====
-- contract/src: the Compact contract vulnseal.compact and the witnesses of witnesses.ts.
pub mod Types
pub mod Witnesses
pub mod Circuits
pub mod Effects
pub mod Calls
pub mod Inversion
pub mod Refinement
pub mod Invariant
pub mod History
pub mod Authority
pub mod Progress
pub mod Lifecycle
pub mod Sample
mod Tests
