-- ===== src/EthBlocks.antt =====
-- cmd/monad/runloop_monad_ethblocks.cpp: one Monad block that is stored in Ethereum format.
pub mod Laws
pub mod Warm
pub mod Runloop
use monad_fork.Node.Senders.{senders_and_authorities, collect_senders}
use monad_fork.Prelude.{some, Bool, Option, List, sub64, ℕ}
use monad_fork.Node.Run.{◌>>=◌, ◌>>◌, Run, pure, try_, call, asks, run_block}
use monad_fork.Ethereum.{execute_args, commit_args}
use monad_fork.Monad.Propose.{with_parent_hash}
use monad_fork.Node.Externals.{
  ExecuteArgs, set_block_and_prefix, commit, finalize, update_verified_block, hash_buffer_set,
  Externals,
}
use monad_fork.Node.Block.{Block, AddressSet, ChainContext}

-- The arguments of execute_block: those of an Ethereum block, with the context of the chain.
unfoldable pub context_args : Externals → ℕ → Block → Bool → List ℕ → ChainContext → ExecuteArgs
unfolding execute_args
context_args ext rev block enable_tracing senders context =
    record (execute_args ext rev block enable_tracing senders) { context = some context }

-- From the choice of the database's state on.
unfoldable pub execute_monad_block :
    Externals → ℕ → Block → ℕ → ℕ → Bool → List ℕ → ChainContext → Run (Unit {0})
unfolding run_block commit_args context_args
execute_monad_block ext rev block₀ block_id parent_block_id enable_tracing senders context = do
  call (set_block_and_prefix (sub64 block₀.header.number 1) parent_block_id)
  parent ← asks ext.read_eth_header
  let block = with_parent_hash block₀ (ext.block_hash parent)
  executed ← run_block ext (context_args ext rev block enable_tracing senders context)
  call (commit (record (commit_args block senders executed) { block_id = block_id }))
  output_header ← asks ext.read_eth_header
  try_ (ext.validate_output_header block.header output_header)
  call (finalize block.header.number block_id)
  call (update_verified_block block.header.number)
  call (hash_buffer_set block.header.number (ext.block_hash output_header))

-- The result is senders_and_authorities_out.
unfoldable pub process_monad_block :
    Externals → ℕ → Block → ℕ → ℕ → Bool → Option AddressSet → Option AddressSet → Run AddressSet
unfolding execute_monad_block
process_monad_block ext rev block block_id parent_block_id enable_tracing grandparent_set
      parent_set =
    do
      try_ (ext.static_validate_header block.header)
      try_ (ext.static_validate_block rev block)
      senders ← try_ (collect_senders block.transactions (ext.recover_senders block.transactions))
      let addresses = senders_and_authorities senders (ext.recover_authorities block.transactions)
      try_ (ext.static_validate_monad_body rev senders block.transactions)
      execute_monad_block ext rev block block_id parent_block_id enable_tracing senders (record {
        grandparent_senders_and_authorities = grandparent_set;
        parent_senders_and_authorities = parent_set;
        senders_and_authorities = addresses;
      })
      pure addresses
