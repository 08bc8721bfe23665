-- ===== src/Node/Ending.antt =====
-- How a runner's main loop ends.
use monad_fork.Prelude.{ℕ}
use monad_fork.Node.Externals.{History}
use monad_fork.Node.Outcome.{Error}

-- How a run ends; `running` says that what the rounds were given was used up before.
pub data Ending : Type 0 where
  running aborted : Ending
  returned : ℕ → ℕ → Ending
  failed : Error → Ending

-- The result, with the caller's `block_num`, a reference that the loop counts up.
pub record End : Type 0 where
  pub ending : Ending
  pub block_num : ℕ
  pub history : History
