-- ===== src/Wire.antt =====
-- crates/ub-wire: frames and their bytes.
pub mod Frame
pub mod Codec
