-- ===== src/Serialize.antt =====
-- src/serialize.cpp, the native format: `serialize`, `parse` and the gate for parsed bytes.
pub mod Encode
pub mod Decode
pub mod Envelope
pub mod Trust
pub mod Header
pub mod Mask
pub mod Presence
pub mod Wire
pub mod Written
pub mod Filling
pub mod RoundTrip
pub mod Whole
pub mod Total
