-- ===== src/Monad/Context/Proposed.antt =====
-- propose_block and the chain context of its block.
use monad_fork.Monad.Context.{
  HasParents, parent_at, body_at, RecoversAll, executions, Contents, IsSetOf, HasContext,
}
use monad_fork.Monad.Context.Attempted.{set_of, attempt_cases}
use monad_fork.Prelude.{
  some, sym, ap, subst, ◌≡◌, refl, inl, inr, arith, ℕ, Bool, List, Option-cases, All,
}
use monad_fork.Monad.Context.Cached.{
  IsEntry, emplace-IsFaithful, chain_context-IsContext, IsFaithful,
}
use monad_fork.Monad.Propose.Laws.{propose_caches}
use monad_fork.Monad.Cache.{BlockCache}
use monad_fork.Node.Externals.{History, Externals}
use monad_fork.Node.Block.{Bytes, Block, ConsensusHeader}
use monad_fork.Monad.Propose.{BlockExecOutput, cache_block, propose_args, propose_block}
use monad_fork.Node.Senders.{collect_senders, senders_and_authorities}
use monad_fork.Node.Outcome.{ok}
use monad_fork.Node.Senders.Laws.{sequence, collect_senders_lem}

pub collected :
    (ext : Externals) (transactions : List Bytes) (senders : List ℕ)
    → RecoversAll ext
    → collect_senders transactions (ext.recover_senders transactions) ≡ ok senders
    → IsSetOf ext transactions
        (senders_and_authorities senders (ext.recover_authorities transactions))
collected ext transactions senders recovers e =
    let same =
      collect_senders_lem transactions (ext.recover_senders transactions) (recovers transactions) in
    elim (Option-cases (sequence (ext.recover_senders transactions))) [
      | inl p ↦ absurd (ground (arith, same))
      | inr (all_, p) ↦ (senders, ground (arith, same), refl)
    ]

module _ (ext : Externals) (ledger : Contents) where
  abbrev pub AllContexts : History → Type 0
  AllContexts h = All (HasContext ext ledger) (executions h)

  module _ (rev block_id : ℕ) (header : ConsensusHeader) (block : Block)
      (is_first tracing : Bool) where
    -- The block is the one that the ledger holds under this id.
    abbrev pub IsNamed : Type 0
    IsNamed =
        (header ≡ ledger.header_of block_id)
        × (block.header.number ≡ (ledger.header_of block_id).execution_inputs.number)
        × (block.transactions ≡ (body_at ledger block_id).transactions)

    pub own-IsEntry :
        (senders : List ℕ)
        → RecoversAll ext
        → IsNamed
        → collect_senders block.transactions (ext.recover_senders block.transactions) ≡ ok senders
        → IsEntry ext ledger (
          block_id,
          record {
            block_number = block.header.number;
            parent_id = header.parent_id;
            senders_and_authorities = set_of ext block senders;
          },
        )
    own-IsEntry senders recovers (named, numbered, filled) p = (
      ap (λ x. x.parent_id) named,
      subst (λ txs. IsSetOf ext txs (set_of ext block senders)) filled
          (collected ext block.transactions senders recovers p),
    )

    cache_block-IsFaithful :
        (senders : List ℕ) (cache cache' : BlockCache)
        → IsFaithful ext ledger cache
        → IsEntry ext ledger (
          block_id,
          record {
            block_number = block.header.number;
            parent_id = header.parent_id;
            senders_and_authorities = set_of ext block senders;
          },
        )
        → cache_block block_id header block (set_of ext block senders) cache ≡ ok cache'
        → IsFaithful ext ledger cache'
    unfolding cache_block
    cache_block-IsFaithful senders cache cache' faithful entry e =
        emplace-IsFaithful ext ledger cache cache' block_id _ faithful entry e

    pub propose_block-AllContexts :
        (cache : BlockCache) (h : History)
        → RecoversAll ext
        → IsNamed
        → IsFaithful ext ledger cache
        → AllContexts h
        → AllContexts (propose_block ext rev block_id header block is_first tracing cache h).1
    unfolding propose_args
    propose_block-AllContexts cache h recovers (named, numbered, filled) faithful good =
        elim (attempt_cases ext rev block_id header block is_first tracing cache h) [
          | inl same ↦ rw same good
          | inr (senders, cache', context, p, q, r, more) ↦
              let entry = own-IsEntry senders recovers (named, numbered, filled) p in
              let (parents, own) =
                chain_context-IsContext ext ledger cache' block.header.number header.parent_id
                  (set_of ext block senders) context
                  (cache_block-IsFaithful senders cache cache' faithful entry q) r in
              let mine = collected ext block.transactions senders recovers p in
              let above : header.parent_id ≡ parent_at ledger block_id =
                ap (λ x. x.parent_id) named in
              let behind =
                subst (λ id. HasParents ext ledger block.header.number id context) above parents in
              rw more (
                (context, block_id, numbered, filled, ap some above, refl, behind, rw own mine),
                good,
              )
        ]

    pub propose_block-IsFaithful :
        (cache cache' : BlockCache) (h : History) (done : BlockExecOutput)
        → RecoversAll ext
        → IsNamed
        → IsFaithful ext ledger cache
        → (propose_block ext rev block_id header block is_first tracing cache h).0
          ≡ ok (done, cache')
        → IsFaithful ext ledger cache'
    propose_block-IsFaithful cache cache' h done recovers named faithful e =
        let (senders, p, new_, same) =
          propose_caches ext rev block_id header block is_first tracing cache h done cache' e in
        subst (IsFaithful ext ledger) (sym same) (own-IsEntry senders recovers named p, faithful)
