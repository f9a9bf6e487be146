-- ===== src/Core.antt =====
-- crates/trackone-core: the types that every crate shares.
pub mod Types
