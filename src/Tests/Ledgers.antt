-- ===== src/Tests/Ledgers.antt =====
-- The theorems on the ledger and on the Monad runner, at the sample chain.
use monad_fork.Prelude.{
  ◌<◌, ◌+◌, ◌-◌, ◌≤◌, ◌≡◌, refl, ◌≢◌, ◌↔◌, true, none, some, [], ◌∷◌, arith, min, List, All, ℕ,
}
use monad_fork.Ledger.{header_at, head_pointer_to_id}
use monad_fork.Monad.Cache.{chain_context, BlockCache, find}
use monad_fork.Node.Outcome.{wrong_ommers_hash, wrong_merkle_root, gas_above_limit, err, ok}
use monad_fork.Node.Block.{BlockHeader}
use monad_fork.Node.Senders.{senders_and_authorities, collect_senders}
use monad_fork.Main.{end_block_num}
use monad_fork.Tests.Samples.{
  sample_header, sample_block, sample_ext, sample_consensus, sample_codec, sample_dir, sample_disk,
  sample_tick, sample_header_at, sample-Consecutive, sample-Complete,
}
use monad_fork.Ledger.Chain.{Chained}
use monad_fork.Ledger.Range.{Visited, collect, seqnos, ascending}
use monad_fork.Ledger.Ends.{walk_ends}
use monad_fork.Ledger.Head.{for_each_header_range}
use monad_fork.Ledger.Walk.{walk, for_each_header}
use monad_fork.Monad.Validate.{validate_delayed_execution_results, validate_live_execution_outputs}
use monad_fork.Monad.Propose.{propose_block}
use monad_fork.Monad.Reading.{Pending, read_ledger}
use monad_fork.Monad.Start.{runloop_monad}
use monad_fork.Monad.Finalize.Laws.{blocks}
use monad_fork.Monad.Reading.Laws.{read_ledger-ascending}
use monad_fork.Monad.Runloop.Laws.{Extends}
use monad_fork.Monad.Validate.Laws.{
  numbers, Matches, validate_delayed_execution_results_iff, validate_live_execution_outputs_iff,
}
use monad_fork.Monad.Propose.Laws.{proposed, propose_atomic, propose_caches}
use monad_fork.Monad.Start.Laws.{runloop_monad_finalizes, runloop_monad_one_block}
use monad_fork.Node.Views.{finalized_numbers}
use monad_fork.Node.Ending.{End}

for_each_header_range_example :
    (r : Visited) × (for_each_header sample_codec sample_dir 0 3 collect 5 (some (4 ∷ [])) []
      ≡ some (ok (4, r)))
    × (seqnos r ≡ ascending (min 4 3 - 0) (0 + 1))
    × Chained r
unfolding head_pointer_to_id
for_each_header_range_example =
    for_each_header_range sample_codec sample_dir 0 3 5 4 (some (4 ∷ [])) (sample_consensus 4)
      sample-Consecutive sample-Complete (omega arith) refl (omega arith) (sample_header_at 4)
      (omega arith)

walk_ends_example : walk sample_codec sample_dir 0 3 collect 5 4 [] ≢ none
walk_ends_example =
    walk_ends sample_codec sample_dir 0 3 collect 5 4 [] sample-Consecutive
      (λ header e. ground (arith, sample_header_at 4)) (omega arith)

runloop_monad_finalizes_example :
    Extends 0 3 []
      (runloop_monad sample_ext sample_codec 9 sample_disk (sample_tick ∷ []) 1 3 true []).history
unfolding finalized_numbers
runloop_monad_finalizes_example =
    runloop_monad_finalizes sample_ext sample_codec 9 sample_disk true (sample_tick ∷ []) 0 1 3 []
      (λ h. refl) (sample-Consecutive, tt) (omega arith)

abbrev one_block : End
one_block =
    runloop_monad sample_ext sample_codec 9 sample_disk (sample_tick ∷ []) 1 (end_block_num 1 1)
      true []

runloop_monad_one_block_example : (one_block.history ≡ []) × (one_block.block_num ≡ 1)
runloop_monad_one_block_example =
    runloop_monad_one_block sample_ext sample_codec 9 sample_disk true (sample_tick ∷ []) 1 []
      (omega arith) (omega arith)

abbrev found : Pending
found = record {
  to_execute = (1, sample_consensus 1) ∷ (2, sample_consensus 2) ∷ (3, sample_consensus 3) ∷ [];
  to_finalize =
      record { block = 1; block_id = 1; verified_blocks = [] }
      ∷ record { block = 2; block_id = 2; verified_blocks = [] }
      ∷ record { block = 3; block_id = 3; verified_blocks = [] }
      ∷ [];
}

read_ledger-ascending_example :
    (k : ℕ) × (blocks found.to_finalize ≡ ascending k (sample_ext.latest_finalized_version [] + 1))
    × (k ≤ 3 - sample_ext.latest_finalized_version [])
unfolding read_ledger finalized_numbers head_pointer_to_id header_at
read_ledger-ascending_example =
    read_ledger-ascending sample_ext sample_codec 9 3 sample_tick [] found sample-Consecutive
      (omega arith) refl

propose_atomic_example :
    proposed (propose_block sample_ext 0 1 (sample_consensus 1) (sample_block 1) true true [] []).1
    ≡ (1001, 1, 1, 0) ∷ []
unfolding propose_block proposed collect_senders chain_context validate_live_execution_outputs
propose_atomic_example =
    propose_atomic sample_ext 0 1 (sample_consensus 1) (sample_block 1) true true [] []

abbrev cached : BlockCache
cached = (1, record { block_number = 1; parent_id = 0; senders_and_authorities = 9 ∷ 7 ∷ [] }) ∷ []

propose_caches_example :
    (senders : List ℕ) × (collect_senders (sample_block 1).transactions (some 7 ∷ some 7 ∷ [])
      ≡ ok senders)
    × (find [] 1 ≡ none)
    × (cached
        ≡ (
          1,
          record {
            block_number = 1;
            parent_id = 0;
            senders_and_authorities =
                senders_and_authorities senders
                  (sample_ext.recover_authorities (sample_block 1).transactions);
          },
        )
          ∷ [])
unfolding propose_block collect_senders chain_context validate_live_execution_outputs
    senders_and_authorities
propose_caches_example =
    propose_caches sample_ext 0 1 (sample_consensus 1) (sample_block 1) true true [] []
      (record { eth_header = sample_header 1; eth_block_hash = 1001 }) cached refl

validate_delayed_execution_results_iff_example :
    (validate_delayed_execution_results
        (λ h. h.number + 1000)
        (λ n. n + 1000)
        (sample_header 5 ∷ sample_header 6 ∷ [])
      ≡ true)
    ↔ ((numbers (sample_header 5 ∷ sample_header 6 ∷ []) ≡ ascending 2 5)
        × All
            (Matches (λ h. h.number + 1000) (λ n. n + 1000))
            (sample_header 5 ∷ sample_header 6 ∷ []))
validate_delayed_execution_results_iff_example =
    validate_delayed_execution_results_iff (λ h. h.number + 1000) (λ n. n + 1000) (sample_header 5)
      (sample_header 6 ∷ []) (omega arith)

-- The gas of this output is above its limit.
abbrev over_limit : BlockHeader
over_limit = record (sample_header 1) { gas_used = 30001 }

validate_live_execution_outputs_iff_example :
    let r = validate_live_execution_outputs (sample_header 1) over_limit in
    let ommers = (sample_header 1).ommers_hash ≡ over_limit.ommers_hash in
    let roots =
      ((sample_header 1).transactions_root ≡ over_limit.transactions_root)
      × ((sample_header 1).withdrawals_root ≡ over_limit.withdrawals_root) in
    ((r ≡ ok tt) ↔ (ommers × roots × (over_limit.gas_used ≤ over_limit.gas_limit)))
    × ((r ≡ err wrong_ommers_hash) ↔ (¬ ommers))
    × ((r ≡ err wrong_merkle_root) ↔ (ommers × (¬ roots)))
    × ((r ≡ err gas_above_limit) ↔ (ommers × roots × (over_limit.gas_limit < over_limit.gas_used)))
validate_live_execution_outputs_iff_example =
    validate_live_execution_outputs_iff (sample_header 1) over_limit
