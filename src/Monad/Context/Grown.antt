-- ===== src/Monad/Context/Grown.antt =====
-- What an executed block adds to the history and to the cache.
use monad_fork.Node.Outcome.{Outcome, ok}
use monad_fork.Node.Externals.{History, record_block_qc, record_block_start, Externals}
use monad_fork.Prelude.{
  ◌≡◌, refl, ◌∙◌, inl, inr, ◌∷◌, arith, ◌==◌, ℕ, Bool, Option, Bool-cases, sub64,
}
use monad_fork.Ledger.{Codec, read_body}
use monad_fork.Monad.Propose.{BlockExecOutput, propose_commit, execute_proposal, propose_block}
use monad_fork.Monad.Cache.{BlockCacheEntry, BlockCache}
use monad_fork.Monad.Handle.{
  block_of, record_result, block_start, propose_dispatch, handle_to_execute,
}
use monad_fork.Monad.Propose.Laws.{propose_caches}
use monad_fork.Node.Views.{committed, Outcome-cases}
use monad_fork.Node.Block.{Bytes, Block, ConsensusHeader, ConsensusBody}

propose_block-committed :
    (ext : Externals) (rev block_id : ℕ) (header : ConsensusHeader) (block : Block)
    (is_first tracing : Bool) (cache : BlockCache) (h : History) (done : BlockExecOutput)
    (cache' : BlockCache)
    → (propose_block ext rev block_id header block is_first tracing cache h).0 ≡ ok (done, cache')
    → committed (propose_block ext rev block_id header block is_first tracing cache h).1
      ≡ (block_id, block.header.number) ∷ committed h
unfolding propose_block execute_proposal propose_commit committed
propose_block-committed ext rev block_id header block is_first tracing cache h done cache' e =
    ground arith

-- What a handled block adds to the cache and to the committed blocks.
abbrev pub Adds : ℕ → ConsensusHeader → BlockCache → History → BlockCache → History → Type 0
Adds id header cache h cache' h' =
    (entry : BlockCacheEntry) × (cache' ≡ (id, entry) ∷ cache)
    × (entry.block_number ≡ header.execution_inputs.number)
    × (committed h' ≡ (id, header.execution_inputs.number) ∷ committed h)

module _ (ext : Externals) (codec : Codec) (bodies : ℕ → Option Bytes) (start_block_num : ℕ)
    (tracing : Bool) (id : ℕ) (header : ConsensusHeader) (cache : BlockCache) where
  dispatch-Adds :
      (body : ConsensusBody) (h : History) (done : BlockExecOutput) (cache' : BlockCache)
      → let r = propose_dispatch ext codec bodies start_block_num tracing id header body cache h in
        r.0 ≡ ok (done, cache') → Adds id header cache h cache' r.1
  unfolding propose_dispatch block_of
  dispatch-Adds body h done cache' e =
      let rev = ext.get_monad_revision header.execution_inputs.timestamp in
      let is_first = header.execution_inputs.number == start_block_num in
      let block = block_of header body in
      elim (Bool-cases (ext.has_monad_traits rev)) [
        | inr bad ↦ absurd (ground arith)
        | inl known ↦
            let proposed_ : (propose_block ext rev id header block is_first tracing cache h).0
                ≡ ok (done, cache') =
              ground arith in
            let (senders, p, new_, same) =
              propose_caches ext rev id header block is_first tracing cache h done cache'
                proposed_ in
            let more =
              propose_block-committed ext rev id header block is_first tracing cache h done cache'
                proposed_ in
            (_, same, refl, ground (arith, more))
      ]

  pub handle-Adds :
      (last_finalized : ℕ) (h : History) (cache' : BlockCache)
      → let r =
          handle_to_execute ext codec bodies start_block_num tracing last_finalized id header cache
            h in
        r.0 ≡ ok cache' → Adds id header cache h cache' r.1
  unfolding handle_to_execute record_result committed
  handle-Adds last_finalized h cache' e =
      elim (Outcome-cases (read_body codec bodies header.block_body_id)) [
        | inr p ↦ absurd (ground arith)
        | inl (body, p) ↦
            let started : History = record_block_qc header last_finalized ∷ h in
            let announced : History =
              record_block_start (
                block_start id header body
                  (ext.chain_hash header.parent_id (sub64 header.seqno 1) started))
              ∷ started in
            let r : Outcome (BlockExecOutput × BlockCache) × History =
              propose_dispatch ext codec bodies start_block_num tracing id header body cache
                announced in
            elim (Outcome-cases r.0) [
              | inr q ↦ absurd (ground arith)
              | inl ((done, cache''), q) ↦
                  let same : cache' ≡ cache'' = ground arith in
                  let (entry, grown, dated, more) = dispatch-Adds body announced done cache'' q in
                  (entry, same ∙ grown, dated, ground (arith, more))
            ]
      ]
