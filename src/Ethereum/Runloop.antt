-- ===== src/Ethereum/Runloop.antt =====
-- cmd/monad/runloop_ethereum.cpp: the loop over the blocks of the block database.
pub mod Laws
pub mod Ends
pub mod Accounts
use monad_fork.Node.Ending.{End, running, aborted, returned, failed}
use monad_fork.Node.Outcome.{or_abort, Error, err, abort, ok, Outcome}
use monad_fork.Ethereum.{process_ethereum_block}
use monad_fork.Node.Run.{asserts, ◌>>◌, pure, try_, Run, ◌>>=◌}
use monad_fork.Prelude.{
  not, leb, ltb, List, length, Bool, add64, u64_max, Option, ℕ, ◌%◌, ◌&&◌, none, some, [], ◌∷◌,
  ◌==◌, if◌then◌else◌,
}
use monad_fork.Node.Externals.{History, log_tps, Externals}
use monad_fork.Node.Block.{Block}

-- The loop's variables.
pub record Loop : Type 0 where
  pub block_num : ℕ
  pub parent_block_id : ℕ
  pub ntxs : ℕ
  pub total_gas : ℕ
  pub batch_num_blocks : ℕ
  pub batch_num_txs : ℕ
  pub batch_gas : ℕ

unfoldable pub batch_size : ℕ → ℕ
batch_size end_block_num = if end_block_num == u64_max then 1 else 1000

abbrev pub start : ℕ → Loop
start block_num = record {
  block_num = block_num;
  parent_block_id = 0;
  ntxs = 0;
  total_gas = 0;
  batch_num_blocks = 0;
  batch_num_txs = 0;
  batch_gas = 0;
}

-- `ntxs += ...; ++batch_num_blocks;`
unfoldable pub count_block : Block → Loop → Loop
count_block block s = record s {
  ntxs = add64 s.ntxs (length block.transactions);
  batch_num_txs = add64 s.batch_num_txs (length block.transactions);
  total_gas = add64 s.total_gas block.header.gas_used;
  batch_gas = add64 s.batch_gas block.header.gas_used;
  batch_num_blocks = add64 s.batch_num_blocks 1;
}

-- The statistics line at a multiple of the batch size, and the reset that follows it.
unfoldable pub report_batch : ℕ → Loop → History → Loop × History
report_batch size s h =
    if s.block_num % size == 0
    then (
      record s { batch_num_blocks = 0; batch_num_txs = 0; batch_gas = 0 },
      log_tps s.block_num s.batch_num_blocks s.batch_num_txs s.batch_gas ∷ h,
    )
    else (s, h)

-- `parent_block_id = block_id; ++block_num;`
unfoldable pub advance : ℕ → Loop → Loop
advance block_id s = record s { block_num = add64 s.block_num 1; parent_block_id = block_id }

-- BOOST_OUTCOME_TRY on a round. One that fails has not changed `block_num`.
unfoldable pub after_round : (Loop → History → End) → Loop → Outcome Loop × History → End
after_round go_on s (ok s', h) = go_on s' h
after_round go_on s (err e, h) = record { ending = failed e; block_num = s.block_num; history = h }
after_round go_on s (abort, h) = record { ending = aborted; block_num = s.block_num; history = h }

module _ (ext : Externals) (block_db : ℕ → Option Block) (end_block_num : ℕ) (tracing : Bool) where
  unfoldable pub round : Loop → Run Loop
  unfolding count_block report_batch advance batch_size
  round s = do
    block ← try_ (or_abort (block_db s.block_num))
    let rev = ext.get_revision block.header.number block.header.timestamp
    asserts (ext.has_evm_traits rev)
    process_ethereum_block ext rev block block.header.number s.parent_block_id tracing
    λ h.
        let (s', h') = report_batch (batch_size end_block_num) (count_block block s) h in
        (ok (advance block.header.number s'), h')

  -- The last line of statistics, and the result.
  unfoldable pub finish : Loop → History → End
  finish s h = record {
    ending = returned s.ntxs s.total_gas;
    block_num = s.block_num;
    history =
        if ltb 0 s.batch_num_blocks
        then log_tps s.block_num s.batch_num_blocks s.batch_num_txs s.batch_gas ∷ h
        else h;
  }

  -- The while loop and what follows it. The list holds the readings of `stop`, one for each
  -- test of the loop that comes to read it.
  unfoldable pub loop : List Bool → Loop → History → End
  unfolding round finish after_round
  loop [] s h =
      if leb s.block_num end_block_num
      then record { ending = running; block_num = s.block_num; history = h }
      else finish s h
  loop (stop ∷ stops) s h =
      let rest : End = after_round (loop stops) s (round s h) in
      if leb s.block_num end_block_num && not stop then rest else finish s h

  unfoldable pub runloop_ethereum : ℕ → List Bool → History → End
  unfolding loop
  runloop_ethereum block_num stops h = loop stops (start block_num) h
