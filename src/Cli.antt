-- ===== src/Cli.antt =====
-- cmd/monad_cli.cpp: the interactive reader of a triedb.
pub mod Machine
pub mod Position
pub mod Program
pub mod Actions
pub mod Commands
pub mod NodeStats
pub mod Report
