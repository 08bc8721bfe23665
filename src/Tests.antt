-- ===== src/Tests.antt =====
-- Concrete inputs, and the theorems applied to them.
pub mod Samples
mod Blocks
mod Ledgers
mod Contexts
mod Stored
mod Shell
mod Logs
mod Rings
mod Tools
mod Nodes
