-- ===== src/Switchboard/Thrown.antt =====
-- src/switchboard/switchboard.cpp: what a handler that throws out of `pump` leaves behind.
