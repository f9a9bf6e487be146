-- ===== src/Pod.antt =====
-- crates/trackone-pod-fw: the firmware's nonces and its emission of frames.
pub mod Nonce
pub mod Emit
