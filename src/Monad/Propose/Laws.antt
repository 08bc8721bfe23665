-- ===== src/Monad/Propose/Laws.antt =====
-- What a proposal does to the database and the hash chain, on every path.
use monad_fork.Prelude.{◌≡◌, inl, inr, none, [], ◌∷◌, arith, ℕ, Bool, List}
use monad_fork.Monad.Propose.{BlockExecOutput, execute_proposal, propose_block}
use monad_fork.Monad.Cache.{BlockCache, find}
use monad_fork.Node.Views.{Outcome-cases, finalized_numbers}
use monad_fork.Node.Senders.{collect_senders, senders_and_authorities}
use monad_fork.Node.Externals.{chain_propose, History, Externals}
use monad_fork.Node.Outcome.{Outcome, ok}
use monad_fork.Node.Block.{Block, ChainContext, ConsensusHeader}

-- (hash, number, block id, parent id) of the entries in the hash chain, newest first
unfoldable pub proposed : History → List (ℕ × ℕ × ℕ × ℕ)
proposed [] = []
proposed (chain_propose hash n id parent ∷ h) = (hash, n, id, parent) ∷ proposed h
proposed (_ ∷ h) = proposed h

module _ (ext : Externals) (rev block_id : ℕ) (header : ConsensusHeader) (block : Block)
    (is_first tracing : Bool) where
  execute_proposal-finalized_numbers :
      (senders : List ℕ) (context : ChainContext) (h : History)
      → finalized_numbers
          (execute_proposal ext rev block_id header block is_first tracing senders context h).1
        ≡ finalized_numbers h
  unfolding execute_proposal finalized_numbers
  execute_proposal-finalized_numbers senders context h = ground arith

  abbrev proposal : BlockCache → History → Outcome (BlockExecOutput × BlockCache) × History
  proposal cache h = propose_block ext rev block_id header block is_first tracing cache h

  -- A proposal finalizes nothing.
  pub propose_block-finalized_numbers :
      (cache : BlockCache) (h : History)
      → finalized_numbers (proposal cache h).1 ≡ finalized_numbers h
  unfolding propose_block finalized_numbers
  propose_block-finalized_numbers cache h = ground arith

  -- A proposal enters the hash chain exactly once and exactly if it succeeds: under its own id and
  -- number, with the id of its parent, and with the hash that it returns.
  pub propose_atomic :
      (cache : BlockCache) (h : History)
      → proposed (proposal cache h).1 ≡ elim (proposal cache h).0 [
        | ok (output, _) ↦
            (output.eth_block_hash, block.header.number, block_id, header.parent_id) ∷ proposed h
        | _ ↦ proposed h
      ]
  unfolding propose_block proposed
  propose_atomic cache h = ground arith

  -- A proposal that succeeds was not in the cache, and it is in the cache it leaves, with its number,
  -- its parent and its set of senders and authorities.
  pub propose_caches :
      (cache : BlockCache) (h : History) (output : BlockExecOutput) (cache' : BlockCache)
      → (proposal cache h).0 ≡ ok (output, cache')
      → (senders : List ℕ) × (collect_senders block.transactions
            (ext.recover_senders block.transactions)
          ≡ ok senders)
        × (find cache block_id ≡ none)
        × (cache'
            ≡ (
              block_id,
              record {
                block_number = block.header.number;
                parent_id = header.parent_id;
                senders_and_authorities =
                    senders_and_authorities senders (ext.recover_authorities block.transactions);
              },
            )
              ∷ cache)
  unfolding propose_block
  propose_caches cache h output cache' e =
      elim (Outcome-cases
        (collect_senders block.transactions (ext.recover_senders block.transactions))) [
          | inr p ↦ absurd (ground arith)
          | inl (senders, p) ↦ (senders, p, ground arith, ground arith)
        ]
