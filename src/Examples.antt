-- ===== src/Examples.antt =====
-- Concrete schemas, values, byte strings and runs of the bus, for each theorem that is listed.
mod Wire
mod Gating
mod Bussing
mod Coding
mod Crossing
mod Pumping
