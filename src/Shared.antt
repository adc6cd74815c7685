-- ===== src/Shared.antt =====
-- packages/shared/src: the encodings, checks and canonical forms that every other part uses.
pub mod Order
pub mod Json
pub mod Canonical
pub mod Envelope
pub mod Keys
pub mod Report
pub mod Crypto
pub mod Redaction
pub mod State
pub mod Environment
pub mod Hex
pub mod Base64
pub mod Sample
pub mod Trials
mod Tests
