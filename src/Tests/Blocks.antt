-- ===== src/Tests/Blocks.antt =====
-- The theorems on blocks and on the Ethereum runner, at the sample chain.
use monad_fork.Prelude.{
  ◌↔◌, ◌+◌, ◌-◌, ◌≤◌, ◌≡◌, refl, ◌≢◌, true, false, ◌||◌, none, some, [], ◌∷◌, arith, min, Option,
  u64_max, add64, ℕ,
}
use monad_fork.Ethereum.Success.{Succeeds, process_iff}
use monad_fork.Node.Outcome.{ok}
use monad_fork.Node.Views.{executed_txs, executed_gas, finalized, logged_txs, logged_gas}
use monad_fork.Ethereum.{process_ethereum_block}
use monad_fork.Tests.Samples.{sample_block, sample_ext}
use monad_fork.Main.{end_block_num}
use monad_fork.Ethereum.Runloop.{runloop_ethereum}
use monad_fork.Ethereum.Laws.{process_atomic}
use monad_fork.Ethereum.Runloop.Ends.{runloop_ends, runloop_reaches}
use monad_fork.Ethereum.Runloop.Laws.{count_up, runloop_finalizes}
use monad_fork.Ethereum.Runloop.Accounts.{runloop_reports}
use monad_fork.Node.Senders.{collect_senders, contains, senders_and_authorities}
use monad_fork.Node.Ending.{running, End}
use monad_fork.Node.Block.{Block}
use monad_fork.Node.Senders.Laws.{
  sequence, or_missing, collect_senders_lem, any_present, senders_and_authorities_lem,
}
use monad_fork.Main.Laws.{end_block_num_lem}

process_atomic_example :
    finalized (process_ethereum_block sample_ext 0 (sample_block 1) 1 0 true []).1 ≡ (1, 1) ∷ []
unfolding process_ethereum_block finalized collect_senders
process_atomic_example = (process_atomic sample_ext 0 (sample_block 1) 1 0 true []).0

process_iff_example :
    (process_ethereum_block sample_ext 0 (sample_block 1) 1 0 true []
      ≡ (ok tt, (process_ethereum_block sample_ext 0 (sample_block 1) 1 0 true []).1))
    ↔ Succeeds sample_ext 0
        (sample_block 1)
        1
        0
        true
        []
        (process_ethereum_block sample_ext 0 (sample_block 1) 1 0 true []).1
process_iff_example =
    process_iff sample_ext 0 (sample_block 1) 1 0 true []
      (process_ethereum_block sample_ext 0 (sample_block 1) 1 0 true []).1 refl

abbrev sample_db : ℕ → Option Block
sample_db n = some (sample_block n)

abbrev sample_run : End
sample_run = runloop_ethereum sample_ext sample_db 3 true 1 (false ∷ false ∷ false ∷ false ∷ []) []

runloop_finalizes_example :
    (1 ≤ sample_run.block_num)
    × (finalized sample_run.history ≡ count_up (sample_run.block_num - 1) 1 (finalized []))
runloop_finalizes_example =
    runloop_finalizes sample_ext sample_db 3 true 1 (false ∷ false ∷ false ∷ false ∷ []) []
      (λ n b e. ground arith) (omega arith)

runloop_ends_example : sample_run.ending ≢ running
runloop_ends_example =
    runloop_ends sample_ext sample_db 3 true 1 (false ∷ false ∷ false ∷ false ∷ []) [] (omega arith)
      (omega arith)

runloop_reaches_example : sample_run.block_num ≡ 4
unfolding runloop_ethereum process_ethereum_block collect_senders
runloop_reaches_example =
    runloop_reaches sample_ext sample_db 3 true 1 (false ∷ false ∷ false ∷ false ∷ []) [] 6 63000
      (omega arith) (omega arith) (refl, (refl, (refl, (refl, tt)))) refl

runloop_reports_example :
    (logged_txs sample_run.history ≡ add64 (logged_txs []) 6)
    × (logged_gas sample_run.history ≡ add64 (logged_gas []) 63000)
    × (executed_txs sample_run.history ≡ add64 (executed_txs []) 6)
    × (executed_gas sample_run.history ≡ add64 (executed_gas []) 63000)
unfolding runloop_ethereum process_ethereum_block collect_senders
runloop_reports_example =
    runloop_reports sample_ext sample_db 3 true 1 (false ∷ false ∷ false ∷ false ∷ []) [] 6 63000
      (omega arith) refl

collect_senders_lem_example :
    collect_senders ((1 ∷ []) ∷ (2 ∷ []) ∷ []) (some 7 ∷ none ∷ [])
    ≡ or_missing [] (sequence (some 7 ∷ none ∷ []))
collect_senders_lem_example =
    collect_senders_lem ((1 ∷ []) ∷ (2 ∷ []) ∷ []) (some 7 ∷ none ∷ []) refl

senders_and_authorities_lem_example :
    contains (senders_and_authorities (3 ∷ 4 ∷ []) ((some 5 ∷ none ∷ []) ∷ [])) 5
    ≡ (contains (3 ∷ 4 ∷ []) 5 || any_present ((some 5 ∷ none ∷ []) ∷ []) 5)
senders_and_authorities_lem_example =
    senders_and_authorities_lem (3 ∷ 4 ∷ []) ((some 5 ∷ none ∷ []) ∷ []) 5

end_block_num_lem_example : end_block_num 10 5 ≡ min u64_max (10 + 5 - 1)
end_block_num_lem_example = end_block_num_lem 10 5 (omega arith) (omega arith) (omega arith)
