-- ===== src/Cipherstore.antt =====
-- cipherstore/src: the content-addressed store of sealed reports and its HTTP server.
pub mod Storage
pub mod Envelope
pub mod Upload
pub mod Sqlite
pub mod Filesystem
pub mod Capacity
pub mod Backup
pub mod Lease
pub mod Client
pub mod Retirement
pub mod Metrics
pub mod Server
pub mod Sample
mod Tests
