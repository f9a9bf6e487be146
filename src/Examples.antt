-- ===== src/Examples.antt =====
-- Concrete inputs on which the theorems' hypotheses hold.
pub mod Segments
pub mod Codec
pub mod Replays
pub mod Frames
pub mod Producers
