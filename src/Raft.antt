-- ===== src/Raft.antt =====
-- packages/raft-consensus/src: one Raft node. `Node` is its state, `Votes` the election, `Append`
-- the follower's side of replication, `Leader` the leader's side.
pub mod Node
pub mod Votes
pub mod Append
pub mod Leader
pub mod Run
pub mod Ballots
pub mod Terms
pub mod Logs
pub mod Applied
pub mod Committed
pub mod Majority
pub mod CatchUp
mod Examples
