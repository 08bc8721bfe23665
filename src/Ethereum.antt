-- ===== src/Ethereum.antt =====
-- cmd/monad/runloop_ethereum.cpp: one historical Ethereum block.
pub mod Runloop
pub mod Laws
pub mod Success
use monad_fork.Node.Run.{run_block, Run, ◌>>=◌, ◌>>◌, try_, call, asks}
use monad_fork.Node.Externals.{
  CommitArgs, Externals, ExecuteArgs, Executed, execute, set_block_and_prefix, commit, finalize,
  update_verified_block, hash_buffer_set,
}
use monad_fork.Prelude.{List, ℕ, Bool, ◌∷◌, none, sub64}
use monad_fork.Node.Block.{Block}
use monad_fork.Node.Senders.{collect_senders, call_tracers}

-- The arguments of execute_block, once the senders are known.
unfoldable pub execute_args : Externals → ℕ → Block → Bool → List ℕ → ExecuteArgs
execute_args ext rev block enable_tracing senders = record {
  rev = rev;
  block = block;
  senders = senders;
  authorities = ext.recover_authorities block.transactions;
  hash_chain = none;
  call_tracers = call_tracers enable_tracing block.transactions;
  context = none;
}

-- The arguments of block_state.commit.
unfoldable pub commit_args : Block → List ℕ → Executed → CommitArgs
commit_args block senders executed = record {
  block_id = block.header.number;
  header = block.header;
  receipts = executed.receipts;
  call_frames = executed.call_frames;
  senders = senders;
  transactions = block.transactions;
  ommers = block.ommers;
  withdrawals = block.withdrawals;
}

unfoldable pub process_ethereum_block : Externals → ℕ → Block → ℕ → ℕ → Bool → Run (Unit {0})
unfolding run_block commit_args
process_ethereum_block ext rev block block_id parent_block_id enable_tracing = do
  try_ (ext.static_validate_header block.header)
  try_ (ext.static_validate_block rev block)
  senders ← try_ (collect_senders block.transactions (ext.recover_senders block.transactions))
  call (set_block_and_prefix (sub64 block.header.number 1) parent_block_id)
  executed ← run_block ext (execute_args ext rev block enable_tracing senders)
  call (commit (commit_args block senders executed))
  output_header ← asks ext.read_eth_header
  try_ (ext.validate_output_header block.header output_header)
  call (finalize block.header.number block_id)
  call (update_verified_block block.header.number)
  call (hash_buffer_set block.header.number (ext.block_hash output_header))
