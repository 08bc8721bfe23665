-- ===== src/Ethereum/Success.antt =====
-- When process_ethereum_block succeeds, and what it then hands to the EVM and to the database.
use monad_fork.Prelude.{
  ◌≡◌, ◌↔◌, inl, inr, none, some, ◌∷◌, arith, if◌then◌else◌, List, sub64, map, length, Bool, ℕ,
}
use monad_fork.Node.Views.{Outcome-cases}
use monad_fork.Ethereum.{execute_args, commit_args, process_ethereum_block}
use monad_fork.Node.Senders.{collect_senders, call_tracers}
use monad_fork.Node.Senders.Laws.{sequence, collect_senders_lem}
use monad_fork.Node.Externals.{
  Executed, ExecuteArgs, CommitArgs, set_block_and_prefix, execute, commit, finalize,
  update_verified_block, hash_buffer_set, History, Externals,
}
use monad_fork.Node.Outcome.{ok}
use monad_fork.Node.Block.{Block, call_tracer, noop_call_tracer}

module _ (ext : Externals) (rev : ℕ) (block : Block) (block_id parent : ℕ) (tracing : Bool) where
  -- What execute_block is given, for these senders.
  abbrev pub executed_with : List ℕ → ExecuteArgs
  executed_with senders = record {
    rev = rev;
    block = block;
    senders = senders;
    authorities = ext.recover_authorities block.transactions;
    hash_chain = none;
    call_tracers =
        map (λ tx. if tracing then call_tracer tx else noop_call_tracer) block.transactions;
    context = none;
  }

  -- What is committed: the results of the execution, under the block's number.
  abbrev pub committed_with : List ℕ → Executed → CommitArgs
  committed_with senders executed = record {
    block_id = block.header.number;
    header = block.header;
    receipts = executed.receipts;
    call_frames = executed.call_frames;
    senders = senders;
    transactions = block.transactions;
    ommers = block.ommers;
    withdrawals = block.withdrawals;
  }

  -- The calls up to the commit, newest first.
  abbrev pub calls_to_commit : List ℕ → Executed → History → History
  calls_to_commit senders executed h =
      commit (committed_with senders executed)
      ∷ execute (executed_with senders)
      ∷ set_block_and_prefix (sub64 block.header.number 1) parent
      ∷ h

  abbrev pub Succeeds : History → History → Type 0
  Succeeds h h' =
      (senders : List ℕ) × (executed : Executed) × (ext.static_validate_header block.header ≡ ok tt)
      × (ext.static_validate_block rev block ≡ ok tt)
      × (sequence (ext.recover_senders block.transactions) ≡ some senders)
      × (ext.execute_block (executed_with senders)
            (set_block_and_prefix (sub64 block.header.number 1) parent ∷ h)
          ≡ ok executed)
      × let stored = calls_to_commit senders executed h in
        (ext.validate_output_header block.header (ext.read_eth_header stored) ≡ ok tt)
        × (h'
            ≡ hash_buffer_set block.header.number (ext.block_hash (ext.read_eth_header stored))
              ∷ update_verified_block block.header.number
              ∷ finalize block.header.number block_id
              ∷ stored)

  succeeds :
      (h h' : History)
      → length (ext.recover_senders block.transactions) ≡ length block.transactions
      → process_ethereum_block ext rev block block_id parent tracing h ≡ (ok tt, h')
      → Succeeds h h'
  unfolding process_ethereum_block execute_args commit_args call_tracers
  succeeds h h' recovers e =
      let txs = block.transactions in
      let same = collect_senders_lem txs (ext.recover_senders txs) recovers in
      elim (Outcome-cases (collect_senders txs (ext.recover_senders txs))) [
        | inr p ↦ absurd (ground arith)
        | inl (senders, p) ↦
            let before : History = set_block_and_prefix (sub64 block.header.number 1) parent ∷ h in
            elim (Outcome-cases (ext.execute_block (executed_with senders) before)) [
              | inr q ↦ absurd (ground arith)
              | inl (executed, q) ↦ (
                senders,
                executed,
                ground arith,
                ground arith,
                ground (arith, p, same),
                q,
                (ground arith, ground arith),
              )
            ]
      ]

  -- A block is processed with success and with these calls exactly if it passes the static checks, all
  -- its senders are recovered, its execution on the state of its parent with these senders succeeds,
  -- and the header that the database holds after the commit passes the check against its own; and then
  -- the calls are: to go to the parent's state, to execute, to commit the results of the execution, to
  -- finalize, to mark as verified and to enter the hash of the output header. The recovery gives one
  -- result for each transaction.
  pub process_iff :
      (h h' : History)
      → length (ext.recover_senders block.transactions) ≡ length block.transactions
      → (process_ethereum_block ext rev block block_id parent tracing h ≡ (ok tt, h'))
        ↔ Succeeds h h'
  unfolding process_ethereum_block execute_args commit_args call_tracers
  process_iff h h' recovers = (
    succeeds h h' recovers,
    λ (senders, executed, f₁, f₂, f₃, q, (f₄, f₅)).
        let txs = block.transactions in
        let same = collect_senders_lem txs (ext.recover_senders txs) recovers in
        ground (arith, same, f₁, f₂, f₃, q, f₄, f₅),
  )
