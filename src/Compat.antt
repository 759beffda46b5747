-- ===== src/Compat.antt =====
-- src/serialize.cpp: the JSON format of `zen::compat`. The shortest decimal form of a double and its
-- reading, `std::to_chars` and `std::from_chars`, are parameters, on 64-bit patterns.
pub mod Numbers
pub mod Encode
pub mod Decode
pub mod Envelope
pub mod Trust
pub mod Strict
