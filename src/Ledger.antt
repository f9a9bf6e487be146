-- ===== src/Ledger.antt =====
-- crates/trackone-ledger: the commitment profile of Verifiable Telemetry Ledgers.
pub mod Hash
pub mod Vtl
pub mod Hex
pub mod Floats
