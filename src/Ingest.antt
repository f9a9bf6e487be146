-- ===== src/Ingest.antt =====
-- crates/trackone-ingest: framed telemetry, from the wire to admitted facts.
pub mod RejectReason
pub mod Replay
pub mod Nonce
pub mod Aad
pub mod Frame
pub mod Audit
pub mod Admission
pub mod Fixture
