-- ===== src/Node.antt =====
-- What the three block runners of cmd/monad share: outcomes, the data of blocks, the external
-- objects that they drive, and the recovery of senders.
pub mod Outcome
pub mod Block
pub mod Externals
pub mod Run
pub mod Ending
pub mod Senders
pub mod Views
