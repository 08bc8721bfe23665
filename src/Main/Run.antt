-- ===== src/Main/Run.antt =====
-- main from the choice of the first block to the end of the runner.
pub mod Laws
use monad_fork.Prelude.{Bool, Option, List, add64, ℕ}
use monad_fork.Main.{
  end_block_num, ChainConfig, Runner, ethereum, monad_ethblocks, monad, select_runner,
}
use monad_fork.Ledger.{Codec, Disk}
use monad_fork.Ethereum.Runloop.{runloop_ethereum}
use monad_fork.EthBlocks.Runloop.{runloop_monad_ethblocks}
use monad_fork.Monad.Reading.{Tick}
use monad_fork.Monad.Start.{runloop_monad}
use monad_fork.Node.Externals.{History, Externals}
use monad_fork.Node.Outcome.{Outcome, ok, err, abort}
use monad_fork.Node.Ending.{aborted, failed, End}
use monad_fork.Node.Block.{Block}
use monad_fork.Main.Start.{InitialState, init_block_num, init_block_hash_buffer}

pub record NodeOptions : Type 0 where
  pub chain : ChainConfig
  pub as_eth_blocks : Bool
  pub nblocks : ℕ
  pub snapshot : Option ℕ
  pub has_statesync : Bool
  pub trace_calls : Bool

-- What the runner is given: the libraries, the directory that `--block_db` names, read as a block
-- database or as a ledger, and what it finds in each of its rounds.
pub record World : Type 0 where
  pub ext : Externals
  pub codec : Codec
  pub fuel : ℕ
  pub disk : Disk
  pub ticks : List Tick
  pub block_db : ℕ → Option Block
  pub stops : List Bool

unfoldable pub call_runner : World → Bool → ℕ → ℕ → History → Runner → End
call_runner w tracing block_num end_block h ethereum =
    runloop_ethereum w.ext w.block_db end_block tracing block_num w.stops h
call_runner w tracing block_num end_block h monad_ethblocks =
    runloop_monad_ethblocks w.ext w.block_db end_block tracing block_num w.stops h
call_runner w tracing block_num end_block h monad =
    runloop_monad w.ext w.codec w.fuel w.disk w.ticks block_num end_block tracing h

unfoldable pub run_from : World → NodeOptions → ℕ → History → End
unfolding call_runner
run_from w options start_block_num h =
    call_runner w options.trace_calls start_block_num
      (end_block_num start_block_num options.nblocks) h
      (select_runner options.chain options.as_eth_blocks)

-- An end before the runner leaves the history alone.
unfoldable pub with_hashes : World → NodeOptions → ℕ → History → Outcome (Unit {0}) → End
unfolding run_from
with_hashes w options start_block_num h (ok _) = run_from w options start_block_num h
with_hashes w options start_block_num h (err e) = record {
  ending = failed e;
  block_num = start_block_num;
  history = h;
}
with_hashes w options start_block_num h abort = record {
  ending = aborted;
  block_num = start_block_num;
  history = h;
}

unfoldable pub with_start : World → NodeOptions → InitialState → History → Outcome ℕ → End
unfolding with_hashes init_block_hash_buffer
with_start w options db h (ok n) =
    let start_block_num = add64 n 1 in
    with_hashes w options start_block_num h
      (init_block_hash_buffer db options.chain start_block_num)
with_start w options db h (err e) = record { ending = failed e; block_num = 0; history = h }
with_start w options db h abort = record { ending = aborted; block_num = 0; history = h }

unfoldable pub run_node : World → NodeOptions → InitialState → History → End
unfolding with_start init_block_num
run_node w options db h =
    with_start w options db h (init_block_num db options.snapshot options.has_statesync)
