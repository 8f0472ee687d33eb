-- ===== src/Election.antt =====
-- paxos/election: the leader election.
pub mod Vote
pub mod Tally
pub mod Look
pub mod Frames
pub mod Liveness
mod Tests
