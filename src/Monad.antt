-- ===== src/Monad.antt =====
-- cmd/monad/runloop_monad.cpp: the runner of the live chain.
pub mod Validate
pub mod Cache
pub mod Propose
pub mod Handle
pub mod Reading
pub mod Finalize
pub mod Runloop
pub mod Start
pub mod Context
