-- ===== src/Sync.antt =====
-- The synchronisation of encrypted objects: sync-client/ and src/routes/sync.js.
pub mod Revision
pub mod Operation
pub mod Json
pub mod Protocol
pub mod Header
pub mod Envelope
pub mod Sealing
pub mod Engine
pub mod Store
pub mod Journal
pub mod Collations
pub mod Tests
mod ProtocolTests
mod EngineTests
