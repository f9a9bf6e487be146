-- ===== src/Ledger/Vtl.antt =====
-- crates/trackone-ledger/src/vtl.rs and vtl/.
pub mod Policy
pub mod Merkle
pub mod Error
pub mod Cbor
pub mod Segment
pub mod Decode
pub mod Chain
pub mod Record
