-- ===== src/Monad/Context/Attempted.antt =====
-- Where propose_block comes to the execution of its block.
use monad_fork.Prelude.{
  ◌≡◌, ◌⊎◌, inl, inr, ◌&&◌, ◌∷◌, arith, if◌then◌else◌, ℕ, Bool, List, Bool-cases, sub64,
}
use monad_fork.Monad.Propose.{
  BlockExecOutput, with_parent_hash, cache_block, propose_args, execute_proposal, propose_block,
}
use monad_fork.Monad.Context.{executions}
use monad_fork.Monad.Cache.{BlockCache, chain_context}
use monad_fork.Node.Views.{is_ok, Outcome-cases}
use monad_fork.Node.Senders.{collect_senders, senders_and_authorities}
use monad_fork.Node.Externals.{ExecuteArgs, set_block_and_prefix, History, Externals}
use monad_fork.Node.Outcome.{Outcome, ok}
use monad_fork.Node.Block.{Block, AddressSet, ChainContext, ConsensusHeader}

abbrev pub set_of : Externals → Block → List ℕ → AddressSet
set_of ext block senders =
    senders_and_authorities senders (ext.recover_authorities block.transactions)

module _ (ext : Externals) (rev block_id : ℕ) (header : ConsensusHeader) (block : Block)
    (is_first tracing : Bool) where
  -- A proposal that comes to its execution makes one, in the context that is given.
  execute_proposal-executions :
      (senders : List ℕ) (context : ChainContext) (h : History)
      → let prefix_ = if is_first then 0 else header.parent_id in
        let h₁ = set_block_and_prefix (sub64 block.header.number 1) prefix_ ∷ h in
        executions
          (execute_proposal ext rev block_id header block is_first tracing senders context h).1
        ≡ propose_args ext rev header
            (with_parent_hash block (ext.block_hash (ext.read_eth_header h₁)))
            tracing
            senders
            context
          ∷ executions h
  unfolding execute_proposal executions
  execute_proposal-executions senders context h = ground arith

  abbrev pub proposal : BlockCache → History → Outcome (BlockExecOutput × BlockCache) × History
  proposal cache h = propose_block ext rev block_id header block is_first tracing cache h

  -- The execution of a proposal with these senders and this context.
  abbrev pub execution : List ℕ → ChainContext → History → ExecuteArgs
  execution senders context h =
      let prefix_ = if is_first then 0 else header.parent_id in
      let h₁ = set_block_and_prefix (sub64 block.header.number 1) prefix_ ∷ h in
      propose_args ext rev header (with_parent_hash block (ext.block_hash (ext.read_eth_header h₁)))
        tracing senders context

  -- A proposal that executes its block, with what it has found before.
  abbrev pub Executes : BlockCache → History → Type 0
  Executes cache h =
      (senders : List ℕ) × (cache' : BlockCache) × (context : ChainContext) × (collect_senders
          block.transactions (ext.recover_senders block.transactions)
        ≡ ok senders)
      × (cache_block block_id header block (set_of ext block senders) cache ≡ ok cache')
      × (chain_context cache' block.header.number header.parent_id (set_of ext block senders)
          ≡ ok context)
      × (executions (proposal cache h).1 ≡ execution senders context h ∷ executions h)

  abbrev checks : List ℕ → Bool
  checks senders =
      is_ok (ext.static_validate_consensus_header header)
      && is_ok (ext.static_validate_header block.header)
      && is_ok (ext.static_validate_block rev block)
      && is_ok (ext.static_validate_monad_body rev senders block.transactions)

  pub attempt_cases :
      (cache : BlockCache) (h : History)
      → (executions (proposal cache h).1 ≡ executions h) ⊎ Executes cache h
  unfolding propose_block
  attempt_cases cache h =
      elim (Outcome-cases
        (collect_senders block.transactions (ext.recover_senders block.transactions))) [
          | inr p ↦ inl (ground arith)
          | inl (senders, p) ↦
              elim (Outcome-cases
                (cache_block block_id header block (set_of ext block senders) cache)) [
                  | inr q ↦ inl (ground arith)
                  | inl (cache', q) ↦
                      elim (Outcome-cases (
                        chain_context cache' block.header.number header.parent_id
                          (set_of ext block senders))) [
                            | inr r ↦ inl (ground arith)
                            | inl (context, r) ↦ elim (Bool-cases (checks senders)) [
                              | inr fail ↦ inl (ground arith)
                              | inl pass ↦ inr (
                                senders,
                                cache',
                                context,
                                p,
                                q,
                                r,
                                ground (arith, execute_proposal-executions senders context h),
                              )
                            ]
                          ]
                ]
        ]
