-- ===== src/Main/Laws.antt =====
-- The last block of a run.
use monad_fork.Prelude.{◌+◌, ◌-◌, ◌≤◌, ◌<◌, ◌≡◌, arith, ℕ, min, u64_max}
use monad_fork.Main.{end_block_num}

-- The last block of a run of `nblocks` blocks from `block_num` on, over uint64_t, is the one that
-- unbounded numbers give, cut off at the largest block number.
pub end_block_num_lem :
    (block_num nblocks : ℕ)
    → 0 < block_num
    → block_num ≤ u64_max
    → nblocks ≤ u64_max
    → end_block_num block_num nblocks ≡ min u64_max (block_num + nblocks - 1)
unfolding end_block_num
end_block_num_lem block_num nblocks pos small few = ground arith
