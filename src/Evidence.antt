-- ===== src/Evidence.antt =====
-- apps/trackone-evidence: the verifier of disclosed bundles.
pub mod Conclusions
pub mod Chain
