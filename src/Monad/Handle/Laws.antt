-- ===== src/Monad/Handle/Laws.antt =====
-- handle_to_execute on every path.
use monad_fork.Prelude.{inl, inr, ◌∷◌, sub64, ◌≡◌, arith, ◌==◌, ℕ, Bool, Option}
use monad_fork.Ledger.{read_body, Codec}
use monad_fork.Monad.Handle.{
  block_start, block_of, record_result, propose_dispatch, handle_to_execute,
}
use monad_fork.Node.Views.{Outcome-cases, finalized_numbers}
use monad_fork.Node.Externals.{record_block_qc, record_block_start, History, Externals}
use monad_fork.Monad.Cache.{BlockCache}
use monad_fork.Monad.Propose.Laws.{propose_block-finalized_numbers}
use monad_fork.Node.Outcome.{Outcome}
use monad_fork.Node.Block.{Bytes, ConsensusHeader, ConsensusBody}

module _ (ext : Externals) (codec : Codec) (bodies : ℕ → Option Bytes) (start_block_num : ℕ)
    (tracing : Bool) where
  abbrev handled : ℕ → ℕ → ConsensusHeader → BlockCache → History → Outcome BlockCache × History
  handled last_finalized id header cache h =
      handle_to_execute ext codec bodies start_block_num tracing last_finalized id header cache h

  propose_dispatch-finalized_numbers :
      (id : ℕ) (header : ConsensusHeader) (body : ConsensusBody) (cache : BlockCache) (h : History)
      → finalized_numbers
          (propose_dispatch ext codec bodies start_block_num tracing id header body cache h).1
        ≡ finalized_numbers h
  unfolding propose_dispatch
  propose_dispatch-finalized_numbers id header body cache h = ground (
    arith,
    propose_block-finalized_numbers ext (ext.get_monad_revision header.execution_inputs.timestamp)
        id header (block_of header body) (header.execution_inputs.number == start_block_num) tracing
        cache h,
  )

  pub handle-finalized_numbers :
      (last_finalized id : ℕ) (header : ConsensusHeader) (cache : BlockCache) (h : History)
      → finalized_numbers (handled last_finalized id header cache h).1 ≡ finalized_numbers h
  unfolding handle_to_execute record_result finalized_numbers
  handle-finalized_numbers last_finalized id header cache h =
      elim (Outcome-cases (read_body codec bodies header.block_body_id)) [
        | inr p ↦ ground arith
        | inl (body, p) ↦
            let started : History = record_block_qc header last_finalized ∷ h in
            let announced : History =
              record_block_start (
                block_start id header body
                  (ext.chain_hash header.parent_id (sub64 header.seqno 1) started))
              ∷ started in
            ground (arith, propose_dispatch-finalized_numbers id header body cache announced)
      ]
