-- ===== src/Main.antt =====
-- cmd/monad/main.cpp: the range of blocks to run, and the choice of the runner.
pub mod Laws
pub mod Options
pub mod Start
pub mod Run
pub mod Program
use monad_fork.Prelude.{
  ◌+◌, ◌-◌, none, some, if◌then◌else◌, ℕ, Bool, Option, leb, u64_max, add64, sub64,
}
use monad_fork.Node.Ending.{Ending, running, aborted, returned, failed}

-- `(max - block_num + 1) <= nblocks ? max : block_num + nblocks - 1`, over uint64_t
unfoldable pub end_block_num : ℕ → ℕ → ℕ
end_block_num block_num nblocks =
    if leb (add64 (u64_max - block_num) 1) nblocks
    then u64_max
    else sub64 (add64 block_num nblocks) 1

pub data ChainConfig : Type 0 where
  ethereum_mainnet monad_devnet monad_testnet monad_mainnet : ChainConfig

pub data Runner : Type 0 where
  ethereum monad_ethblocks monad : Runner

-- The switch that calls one of the three runners.
unfoldable pub select_runner : ChainConfig → Bool → Runner
select_runner ethereum_mainnet as_eth_blocks = ethereum
select_runner _ as_eth_blocks = if as_eth_blocks then monad_ethblocks else monad

-- EXIT_FAILURE if the runner's result has an error, EXIT_SUCCESS if not; no code if it aborted or
-- has not returned.
unfoldable pub exit_code : Ending → Option ℕ
exit_code (returned ntxs gas) = some 0
exit_code (failed e) = some 1
exit_code aborted = none
exit_code running = none
