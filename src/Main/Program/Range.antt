-- ===== src/Main/Program/Range.antt =====
-- The blocks that a run of main finalizes.
use monad_fork.Main.Program.{Surroundings, MainRun}
use monad_fork.Prelude.{ℕ}
use monad_fork.Main.Options.{NodeArguments}
use monad_fork.Node.Externals.{History}
use monad_fork.Main.Run.Laws.{Follows}

module _ (env : Surroundings) (args : NodeArguments) (first : ℕ) (h : History) where
  abbrev Done : MainRun → Type 0
  Done m = Follows first args.nblocks h m.history
