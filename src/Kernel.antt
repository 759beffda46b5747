-- ===== src/Kernel.antt =====
-- include/zen/kernel/schema_codec.hpp: schemas described as values, which cross the C ABI as bytes, and
-- src/kernel/kernel.cpp: the gate on that boundary.
pub mod Codec
pub mod Rebuilt
pub mod Host
pub mod Boundary
