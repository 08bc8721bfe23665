-- ===== src/Monad/Propose.antt =====
-- propose_block of cmd/monad/runloop_monad.cpp: one block of a proposal.
pub mod Laws
use monad_fork.Node.Senders.{call_tracers, senders_and_authorities, collect_senders}
use monad_fork.Prelude.{some, if◌then◌else◌, ℕ, Bool, List, sub64}
use monad_fork.Node.Run.{◌>>=◌, ◌>>◌, Run, pure, try_, call, asks, run_block}
use monad_fork.Monad.Validate.{validate_live_execution_outputs}
use monad_fork.Monad.Cache.{BlockCache, emplace, chain_context}
use monad_fork.Node.Externals.{
  ExecuteArgs, Executed, CommitArgs, set_block_and_prefix, commit, chain_propose, record_evm_enter,
  record_evm_exit, Externals,
}
use monad_fork.Node.Outcome.{Outcome}
use monad_fork.Node.Block.{BlockHeader, Block, AddressSet, ChainContext, ConsensusHeader}

pub record BlockExecOutput : Type 0 where
  pub eth_header : BlockHeader
  pub eth_block_hash : ℕ

-- `block.header.parent_hash = ...`
abbrev pub with_parent_hash : Block → ℕ → Block
with_parent_hash block parent_hash = record block {
  header = record block.header { parent_hash = parent_hash };
}

-- The block itself is entered under its id before its context is built.
unfoldable pub cache_block :
    ℕ → ConsensusHeader → Block → AddressSet → BlockCache → Outcome BlockCache
unfolding emplace
cache_block block_id header block addresses cache = emplace cache block_id (record {
  block_number = block.header.number;
  parent_id = header.parent_id;
  senders_and_authorities = addresses;
})

unfoldable pub propose_args :
    Externals → ℕ → ConsensusHeader → Block → Bool → List ℕ → ChainContext → ExecuteArgs
propose_args ext rev header block enable_tracing senders context = record {
  rev = rev;
  block = block;
  senders = senders;
  authorities = ext.recover_authorities block.transactions;
  hash_chain = some header.parent_id;
  call_tracers = call_tracers enable_tracing block.transactions;
  context = some context;
}

unfoldable pub propose_commit : ℕ → Block → List ℕ → Executed → CommitArgs
propose_commit block_id block senders results = record {
  block_id = block_id;
  header = block.header;
  receipts = results.receipts;
  call_frames = results.call_frames;
  senders = senders;
  transactions = block.transactions;
  ommers = block.ommers;
  withdrawals = block.withdrawals;
}

-- execute_block, between the two markers of the event recorder; an error skips the second one.
unfoldable pub run_marked : Externals → ExecuteArgs → Run Executed
unfolding run_block
run_marked ext args = do
  call record_evm_enter
  results ← run_block ext args
  call record_evm_exit
  pure results

-- From the choice of the database's state to the entry in the hash chain.
unfoldable pub execute_proposal :
    Externals
    → ℕ
    → ℕ
    → ConsensusHeader
    → Block
    → Bool
    → Bool
    → List ℕ
    → ChainContext
    → Run BlockExecOutput
unfolding run_marked
execute_proposal ext rev block_id header block₀ is_first enable_tracing senders context = do
  call (
      set_block_and_prefix (sub64 block₀.header.number 1)
        (if is_first then 0 else header.parent_id))
  parent ← asks ext.read_eth_header
  let block = with_parent_hash block₀ (ext.block_hash parent)
  results ← run_marked ext (propose_args ext rev header block enable_tracing senders context)
  call (commit (propose_commit block_id block senders results))
  eth_header ← asks ext.read_eth_header
  try_ (validate_live_execution_outputs block.header eth_header)
  call (chain_propose (ext.block_hash eth_header) block.header.number block_id header.parent_id)
  pure (record { eth_header = eth_header; eth_block_hash = ext.block_hash eth_header })

unfoldable pub propose_block :
    Externals
    → ℕ
    → ℕ
    → ConsensusHeader
    → Block
    → Bool
    → Bool
    → BlockCache
    → Run (BlockExecOutput × BlockCache)
unfolding execute_proposal cache_block
propose_block ext rev block_id header block is_first enable_tracing cache = do
  try_ (ext.static_validate_consensus_header header)
  try_ (ext.static_validate_header block.header)
  try_ (ext.static_validate_block rev block)
  senders ← try_ (collect_senders block.transactions (ext.recover_senders block.transactions))
  let addresses = senders_and_authorities senders (ext.recover_authorities block.transactions)
  cache' ← try_ (cache_block block_id header block addresses cache)
  try_ (ext.static_validate_monad_body rev senders block.transactions)
  context ← try_ (chain_context cache' block.header.number header.parent_id addresses)
  output ← execute_proposal ext rev block_id header block is_first enable_tracing senders context
  pure (output, cache')
