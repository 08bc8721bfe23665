-- ===== src/Monad/Handle.antt =====
-- handle_to_execute of cmd/monad/runloop_monad.cpp: one proposal from the ledger.
pub mod Laws
use monad_fork.Node.Externals.{
  BlockStart, update_proposed_metadata, update_voted_metadata, record_block_qc, record_block_start,
  record_block_result, log_block_tps, History, Externals,
}
use monad_fork.Prelude.{true, false, ◌∷◌, ◌==◌, ℕ, Bool, Option, sub64, length}
use monad_fork.Node.Run.{◌>>=◌, ◌>>◌, Run, pure, try_, call, asks, asserts}
use monad_fork.Ledger.{Codec, read_body}
use monad_fork.Monad.Validate.{validate_delayed_execution_results}
use monad_fork.Monad.Propose.{BlockExecOutput, propose_block}
use monad_fork.Monad.Cache.{BlockCache}
use monad_fork.Node.Outcome.{Outcome, ok, err, abort}
use monad_fork.Node.Block.{Bytes, Block, ConsensusHeader, ConsensusBody}

unfoldable pub block_of : ConsensusHeader → ConsensusBody → Block
block_of header body = record {
  header = header.execution_inputs;
  transactions = body.transactions;
  ommers = body.ommers;
  withdrawals = body.withdrawals;
}

-- The recorder's result of propose_dispatch, and the result itself.
unfoldable pub record_result {ℓ} : {A : Type ℓ} → Outcome A × History → Outcome A × History
record_result p =
    let (r, h) = p in
    elim r [
      | ok a ↦ (ok a, record_block_result true ∷ h)
      | err e ↦ (err e, record_block_result false ∷ h)
      | abort ↦ (abort, h)
    ]

-- The event that announces the block, with the hash that the buffer holds for its parent's number.
unfoldable pub block_start : ℕ → ConsensusHeader → ConsensusBody → ℕ → BlockStart
block_start block_id header body parent_hash = record {
  block_id = block_id;
  execution_inputs = header.execution_inputs;
  parent_hash = parent_hash;
  block_round = header.block_round;
  epoch = header.epoch;
  timestamp_ns = header.timestamp_ns;
  ntxns = length body.transactions;
  author = header.author;
  base_fee = header.base_fee;
}

module _ (ext : Externals) (codec : Codec) (bodies : ℕ → Option Bytes) (start_block_num : ℕ)
    (enable_tracing : Bool) where
  -- The macro SWITCH_MONAD_TRAITS has a case for the revision, or the process ends.
  unfoldable pub propose_dispatch :
      ℕ → ConsensusHeader → ConsensusBody → BlockCache → Run (BlockExecOutput × BlockCache)
  unfolding block_of
  propose_dispatch block_id header body cache = do
    let rev = ext.get_monad_revision header.execution_inputs.timestamp
    asserts (ext.has_monad_traits rev)
    propose_block ext rev block_id header (block_of header body)
        (header.execution_inputs.number == start_block_num) enable_tracing cache

  unfoldable pub handle_to_execute : ℕ → ℕ → ConsensusHeader → BlockCache → Run BlockCache
  unfolding propose_dispatch record_result block_start
  handle_to_execute last_finalized block_id header cache = do
    body ← try_ (read_body codec bodies header.block_body_id)
    call (record_block_qc header last_finalized)
    parent_hash ← asks (ext.chain_hash header.parent_id (sub64 header.seqno 1))
    call (record_block_start (block_start block_id header body parent_hash))
    valid ← asks λ h.
        validate_delayed_execution_results ext.block_hash (λ n. ext.chain_hash header.parent_id n h)
          header.delayed_execution_results
    asserts valid
    result ← λ h. record_result (propose_dispatch block_id header body cache h)
    call (update_proposed_metadata header.seqno block_id)
    call (update_voted_metadata (sub64 header.seqno 1) header.parent_id)
    call (
        log_block_tps header.execution_inputs.number block_id (length body.transactions)
          result.0.eth_header.gas_used)
    pure result.1
