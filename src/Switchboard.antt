-- ===== src/Switchboard.antt =====
-- include/zen/switchboard/ and src/switchboard/switchboard.cpp: the message bus.
-- A shard is an abstract class of the program; its implementations are not, so the methods are
-- parameters, over a type `S` of shard objects. `handle` may send while it runs and look at what
-- the sends return, and it may run the gate and stop the bus: it is a tree of calls, whose leaf is
-- the object afterwards. The
-- objects that observers are notified of are logged, for each observer in turn.
-- Sequence numbers, ids and runs of the gate are counted up by one without a bound: the program has
-- 2 ^ 64, which a journal with an entry for every sequence number does not reach.
pub mod State
pub mod Deliver
pub mod Lifecycle
pub mod Sends
pub mod Fate
pub mod Outcomes
pub mod Settled
pub mod Thrown
pub mod Revival
pub mod Invariant
pub mod Kept
pub mod Reachable
pub mod Numbering
pub mod Mail
pub mod Journal
pub mod Pumping
