-- ===== src/Monad/Context/Handled.antt =====
-- handle_to_execute and the loop over to_execute.
use monad_fork.Node.Externals.{History, record_block_qc, record_block_start, Externals}
use monad_fork.Prelude.{
  ◌≡◌, ◌∙◌, inl, inr, ◌∷◌, arith, ◌==◌, ℕ, ap, subst, Bool, Option, Bool-cases, sub64,
}
use monad_fork.Ledger.{Codec, read_body}
use monad_fork.Monad.Validate.{validate_delayed_execution_results}
use monad_fork.Monad.Propose.{BlockExecOutput, propose_block}
use monad_fork.Monad.Reading.{ToExecute}
use monad_fork.Monad.Cache.{BlockCache}
use monad_fork.Monad.Handle.{
  block_of, record_result, block_start, propose_dispatch, handle_to_execute,
}
use monad_fork.Node.Views.{Outcome-cases}
use monad_fork.Node.Outcome.{Outcome, ok}
use monad_fork.Node.Block.{Bytes, ConsensusHeader, ConsensusBody}
use monad_fork.Monad.Context.{RecoversAll, executions, Contents, body_at}
use monad_fork.Monad.Context.Cached.{IsFaithful}
use monad_fork.Monad.Context.Proposed.{
  AllContexts, propose_block-AllContexts, propose_block-IsFaithful,
}

-- Every body that the disk gives is the ledger's.
abbrev pub HasBodies : Codec → Contents → (ℕ → Option Bytes) → Type 0
HasBodies codec ledger bodies =
    (id : ℕ) (body : ConsensusBody) → read_body codec bodies id ≡ ok body → body ≡ ledger.body_of id

abbrev pub IsListed : Contents → ToExecute → Type 0
IsListed ledger (id, header) = header ≡ ledger.header_of id

module _ (ext : Externals) (codec : Codec) (ledger : Contents) (bodies : ℕ → Option Bytes)
    (start_block_num : ℕ) (tracing : Bool) (recovers : RecoversAll ext)
    (has : HasBodies codec ledger bodies) where
  module _ (id : ℕ) (header : ConsensusHeader) (cache : BlockCache)
      (listed : header ≡ ledger.header_of id) (faithful : IsFaithful ext ledger cache) where
    abbrev dispatched : ConsensusBody → History → Outcome (BlockExecOutput × BlockCache) × History
    dispatched body h =
        propose_dispatch ext codec bodies start_block_num tracing id header body cache h

    pub block-IsNamed :
        (body : ConsensusBody)
        → read_body codec bodies header.block_body_id ≡ ok body
        → (header ≡ ledger.header_of id)
          × ((block_of header body).header.number ≡ (ledger.header_of id).execution_inputs.number)
          × ((block_of header body).transactions ≡ (body_at ledger id).transactions)
    unfolding block_of
    block-IsNamed body e = (
      listed,
      ap (λ x. x.execution_inputs.number) listed,
      ap (λ x. x.transactions) (has header.block_body_id body e)
          ∙ ap (λ x. (ledger.body_of x.block_body_id).transactions) listed,
    )

    dispatch-AllContexts :
        (body : ConsensusBody) (h : History)
        → read_body codec bodies header.block_body_id ≡ ok body
        → AllContexts ext ledger h
        → AllContexts ext ledger (dispatched body h).1
    unfolding propose_dispatch
    dispatch-AllContexts body h e good =
        let rev = ext.get_monad_revision header.execution_inputs.timestamp in
        elim (Bool-cases (ext.has_monad_traits rev)) [
          | inr p ↦ let same : (dispatched body h).1 ≡ h = ground arith in rw same good
          | inl p ↦
              let is_first = header.execution_inputs.number == start_block_num in
              let same : (dispatched body h).1
                  ≡ (propose_block ext rev id header (block_of header body) is_first tracing cache
                      h).1 =
                ground arith in
              rw same (
                propose_block-AllContexts ext ledger rev id header (block_of header body) is_first
                  tracing cache h recovers (block-IsNamed body e) faithful good)
        ]

    dispatch-IsFaithful :
        (body : ConsensusBody) (h : History) (done : BlockExecOutput) (cache' : BlockCache)
        → read_body codec bodies header.block_body_id ≡ ok body
        → (dispatched body h).0 ≡ ok (done, cache')
        → IsFaithful ext ledger cache'
    unfolding propose_dispatch
    dispatch-IsFaithful body h done cache' e q =
        let rev = ext.get_monad_revision header.execution_inputs.timestamp in
        elim (Bool-cases (ext.has_monad_traits rev)) [
          | inr p ↦ absurd (ground arith)
          | inl p ↦
              let is_first = header.execution_inputs.number == start_block_num in
              propose_block-IsFaithful ext ledger rev id header (block_of header body) is_first
                tracing cache cache' h done recovers (block-IsNamed body e) faithful (ground arith)
        ]

    abbrev pub handled : ℕ → History → Outcome BlockCache × History
    handled last_finalized h =
        handle_to_execute ext codec bodies start_block_num tracing last_finalized id header cache h

    pub handle-AllContexts :
        (last_finalized : ℕ) (h : History)
        → AllContexts ext ledger h
        → AllContexts ext ledger (handled last_finalized h).1
    unfolding handle_to_execute record_result executions
    handle-AllContexts last_finalized h good =
        elim (Outcome-cases (read_body codec bodies header.block_body_id)) [
          | inr p ↦ let same : (handled last_finalized h).1 ≡ h = ground arith in rw same good
          | inl (body, p) ↦
              let started : History = record_block_qc header last_finalized ∷ h in
              let announced : History =
                record_block_start (
                  block_start id header body
                    (ext.chain_hash header.parent_id (sub64 header.seqno 1) started))
                ∷ started in
              let valid =
                validate_delayed_execution_results ext.block_hash
                  (λ n. ext.chain_hash header.parent_id n announced)
                  header.delayed_execution_results in
              elim (Bool-cases valid) [
                | inr q ↦
                    let same : executions (handled last_finalized h).1 ≡ executions h =
                      ground arith in
                    rw same good
                | inl q ↦
                    let same : executions (handled last_finalized h).1
                        ≡ executions (dispatched body announced).1 =
                      ground arith in
                    rw same (dispatch-AllContexts body announced p good)
              ]
        ]

    pub handle-IsFaithful :
        (last_finalized : ℕ) (h : History) (cache' : BlockCache)
        → (handled last_finalized h).0 ≡ ok cache'
        → IsFaithful ext ledger cache'
    unfolding handle_to_execute record_result
    handle-IsFaithful last_finalized h cache' e =
        elim (Outcome-cases (read_body codec bodies header.block_body_id)) [
          | inr p ↦ absurd (ground arith)
          | inl (body, p) ↦
              let started : History = record_block_qc header last_finalized ∷ h in
              let announced : History =
                record_block_start (
                  block_start id header body
                    (ext.chain_hash header.parent_id (sub64 header.seqno 1) started))
                ∷ started in
              elim (Outcome-cases (dispatched body announced).0) [
                | inr q ↦ absurd (ground arith)
                | inl ((done, cache''), q) ↦
                    let same : cache'' ≡ cache' = ground arith in
                    subst (IsFaithful ext ledger) same
                      (dispatch-IsFaithful body announced done cache'' p q)
              ]
        ]
