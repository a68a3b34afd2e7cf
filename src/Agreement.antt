-- ===== src/Agreement.antt =====
-- Several replicas that run hotstuff/consensus.cc on one tree of blocks.
-- The addresses of the blocks are those of the tree, which names every block that is ever
-- proposed; each replica has the part of it that it has received. A replica's moves are those of
-- `Consensus.Reach`, with what the network queue has checked before: the certificate of a block
-- is on a block of the store that a quorum has signed. Faulty replicas sign what they like.
pub mod Quorums
pub mod Tree
pub mod Local
pub mod Moved
pub mod Moves
pub mod Received
pub mod Voting
pub mod Steps
pub mod Group
pub mod Chains
pub mod Logs
