-- ===== src/Dataset.antt =====
-- paxos/transaction: the data set, its log in memory and its log files.
pub mod Files
pub mod Core
pub mod Replay
pub mod Order
pub mod Load
pub mod Tests
