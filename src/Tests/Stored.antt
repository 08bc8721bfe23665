-- ===== src/Tests/Stored.antt =====
-- The theorems on Monad blocks in Ethereum format, at the sample chain.
use monad_fork.Prelude.{
  ◌+◌, ◌-◌, ◌≤◌, ◌≡◌, refl, true, false, none, some, [], ◌∷◌, arith, if◌then◌else◌, Option, map, ℕ,
}
use monad_fork.EthBlocks.{process_monad_block}
use monad_fork.Tests.Samples.{sample_block, sample_ext}
use monad_fork.Ethereum.Runloop.{start}
use monad_fork.Ethereum.Runloop.Laws.{count_up}
use monad_fork.EthBlocks.Warm.{warm_sets}
use monad_fork.EthBlocks.Runloop.{Sets, runloop_monad_ethblocks, round}
use monad_fork.EthBlocks.Laws.{process_monad_atomic}
use monad_fork.EthBlocks.Runloop.Range.{runloop_monad_ethblocks_finalizes}
use monad_fork.EthBlocks.Runloop.Laws.{round-warm_sets}
use monad_fork.Node.Views.{finalized, hashes_set, verified, is_ok}
use monad_fork.Node.Senders.{collect_senders, senders_and_authorities}
use monad_fork.Node.Outcome.{ok}
use monad_fork.Node.Block.{Block}

abbrev sample_db : ℕ → Option Block
sample_db n = some (sample_block n)

process_monad_atomic_example :
    let r = process_monad_block sample_ext 0 (sample_block 1) 1 0 true none none [] in
    (finalized r.1 ≡ (if is_ok r.0 then (1, 1) ∷ finalized [] else finalized []))
    × (verified r.1 ≡ (if is_ok r.0 then 1 ∷ verified [] else verified []))
    × (map (λ p. p.0) (hashes_set r.1) ≡ (
        if is_ok r.0 then 1 ∷ map (λ p. p.0) (hashes_set []) else map (λ p. p.0) (hashes_set [])))
process_monad_atomic_example =
    process_monad_atomic sample_ext 0 (sample_block 1) 1 0 true none none []

abbrev first_sets : Sets
first_sets = record { counters = start 1; parent_set = none; grandparent_set = none }

abbrev next_sets : Sets
next_sets = record {
  counters = record {
    block_num = 2;
    parent_block_id = 1;
    ntxs = 2;
    total_gas = 21000;
    batch_num_blocks = 1;
    batch_num_txs = 2;
    batch_gas = 21000;
  };
  parent_set = some (9 ∷ 7 ∷ []);
  grandparent_set = none;
}

round-warm_sets_example :
    (next_sets.counters.block_num ≡ first_sets.counters.block_num + 1)
    × (warm_sets sample_ext sample_db next_sets.counters.block_num
        ≡ ok (next_sets.parent_set, next_sets.grandparent_set))
unfolding round warm_sets collect_senders senders_and_authorities process_monad_block
round-warm_sets_example =
    round-warm_sets sample_ext sample_db 3 true first_sets next_sets []
      (round sample_ext sample_db 3 true first_sets []).1 (omega arith) (omega arith) refl refl

runloop_monad_ethblocks_finalizes_example :
    (k : ℕ) × (finalized
        (runloop_monad_ethblocks sample_ext sample_db 3 true 2 (false ∷ false ∷ []) []).history
      ≡ count_up k 2 (finalized []))
    × (k ≤ 3 + 1 - 2)
runloop_monad_ethblocks_finalizes_example =
    runloop_monad_ethblocks_finalizes sample_ext sample_db 3 true 2 (false ∷ false ∷ []) []
      (λ n b e. ground arith) (omega arith)
