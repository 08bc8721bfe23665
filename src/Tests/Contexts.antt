-- ===== src/Tests/Contexts.antt =====
-- The theorems on the chain context, at a chain whose blocks hold one transaction each.
use monad_fork.Monad.Validate.{validate_delayed_execution_results, validate_live_execution_outputs}
use monad_fork.Monad.Propose.{propose_commit, propose_block}
use monad_fork.Monad.Cache.{chain_context}
use monad_fork.Node.Senders.{collect_senders}
use monad_fork.Prelude.{
  ◌+◌, ◌-◌, ◌==◌, if◌then◌else◌, Option, false, List, ◌≡◌, refl, true, none, some, [], ◌∷◌, arith,
  ℕ, ap, zero, suc,
}
use monad_fork.Tests.Samples.{
  sample_header, first_of, sample_codec, sample_ext, sample_consensus, sample_dir, sample_disk,
  sample_tick,
}
use monad_fork.Monad.Context.Found.{IsTick}
use monad_fork.Monad.Context.Kept.{is_stored}
use monad_fork.Monad.Propose.Laws.{proposed}
use monad_fork.Node.Outcome.{or_abort, ok}
use monad_fork.Node.Ending.{End, aborted}
use monad_fork.Monad.Context.Present.{IsNumbered, Lives}
use monad_fork.Ledger.{Disk, head_pointer_to_id, Codec, read_body, header_at}
use monad_fork.Monad.Runloop.{run}
use monad_fork.Ledger.Range.{Consecutive}
use monad_fork.Ledger.Walk.{continue_walk, handle_header, walk, for_each_header}
use monad_fork.Monad.Reading.{Tick, read_ledger}
use monad_fork.Monad.Context.Lives.{Fails, run-Fails}
use monad_fork.Monad.Context.Readied.{IsFinalChain}
use monad_fork.Node.Views.{committed, finalized_numbers}
use monad_fork.Node.Externals.{Externals}
use monad_fork.Monad.Context.{executions, RecoversAll, Contents}
use monad_fork.Monad.Start.{runloop_monad}
use monad_fork.Monad.Context.Rounds.{runloop_monad_contexts}
use monad_fork.Monad.Context.Proposed.{AllContexts}
use monad_fork.Node.Block.{Bytes, ConsensusHeader, ConsensusBody}

abbrev body_with : Bytes → ConsensusBody
body_with tx = record { transactions = tx ∷ []; ommers = []; withdrawals = none }

abbrev filled_codec : Codec
filled_codec = record sample_codec { decode_body = λ b. some (body_with b) }

abbrev filled_ledger : Contents
filled_ledger = record { header_of = sample_consensus; body_of = λ id. body_with (id ∷ []) }

filled-IsHeaderOf :
    (id : ℕ) (header : ConsensusHeader)
    → header_at filled_codec sample_dir id ≡ ok header
    → header ≡ sample_consensus id
unfolding header_at
filled-IsHeaderOf zero header e = absurd (ground arith)
filled-IsHeaderOf (suc n) header e = ground arith

filled-IsBodyOf :
    (id : ℕ) (body : ConsensusBody)
    → read_body filled_codec sample_dir id ≡ ok body
    → body ≡ body_with (id ∷ [])
unfolding read_body
filled-IsBodyOf id body e = ground arith

sample-RecoversAll : RecoversAll sample_ext
sample-RecoversAll [] = refl
sample-RecoversAll (tx ∷ txs) = ap suc (sample-RecoversAll txs)

runloop_monad_contexts_example :
    AllContexts sample_ext filled_ledger
      (runloop_monad sample_ext filled_codec 9 sample_disk (sample_tick ∷ []) 1 3 true []).history
unfolding executions
runloop_monad_contexts_example =
    runloop_monad_contexts sample_ext filled_codec filled_ledger 9 sample_disk true
      (sample_tick ∷ []) 1 3 [] sample-RecoversAll (filled-IsHeaderOf, filled-IsBodyOf)
      (
        (
          (filled-IsHeaderOf, filled-IsBodyOf),
          (filled-IsHeaderOf, filled-IsBodyOf),
          (filled-IsHeaderOf, filled-IsBodyOf),
        ),
        tt,
      )
      tt

-- The header of block n has the result of block n - 1, and the hash chain has another hash for
-- block 2 than the one that block 3 names.
abbrev delayed_header : ℕ → ConsensusHeader
delayed_header n = record (sample_consensus n) {
  delayed_execution_results = sample_header (n - 1) ∷ [];
}

abbrev delayed_at : ℕ → Option ConsensusHeader
delayed_at zero = none
delayed_at (suc n) = some (delayed_header (suc n))

abbrev delayed_codec : Codec
delayed_codec = record filled_codec { decode_header = λ v b. delayed_at (first_of b) }

abbrev delayed_ledger : Contents
delayed_ledger = record { header_of = delayed_header; body_of = λ id. body_with (id ∷ []) }

-- The database has the proposals of this run.
abbrev delayed_ext : Externals
delayed_ext = record sample_ext {
  has_proposal = λ id n h. is_stored (committed h) id n;
  chain_hash = λ id n h. if n == 2 then 0 else n + 1000;
}

delayed-Lives : Lives delayed_ext
delayed-Lives = record {
  consensus_header = λ header. refl;
  header = λ header. refl;
  block = λ rev block. refl;
  body = λ rev senders transactions. refl;
  execution = λ args h. refl;
}

delayed-IsNumbered : IsNumbered delayed_ledger
delayed-IsNumbered = record { number = λ id. refl; parent = λ id pos. omega (arith, pos) }

delayed-IsFinalChain : IsFinalChain delayed_ledger (λ n. n)
delayed-IsFinalChain = record { seqno = λ n. refl; parent = λ n. omega arith }

delayed_header_at : (id : ℕ) → header_at delayed_codec sample_dir id ≡ or_abort (delayed_at id)
unfolding header_at
delayed_header_at id = ground arith

delayed-Consecutive : Consecutive delayed_codec sample_dir
delayed-Consecutive zero header parent e f = absurd (ground (arith, delayed_header_at 0))
delayed-Consecutive (suc zero) header parent e f =
    absurd (ground (arith, delayed_header_at 0, delayed_header_at 1))
delayed-Consecutive (suc (suc n)) header parent e f =
    ground (arith, delayed_header_at (suc n), delayed_header_at (suc (suc n)))

delayed-IsHeaderOf :
    (id : ℕ) (header : ConsensusHeader)
    → header_at delayed_codec sample_dir id ≡ ok header
    → header ≡ delayed_header id
unfolding header_at
delayed-IsHeaderOf zero header e = absurd (ground arith)
delayed-IsHeaderOf (suc n) header e = ground arith

delayed-IsBodyOf :
    (id : ℕ) (body : ConsensusBody)
    → read_body delayed_codec sample_dir id ≡ ok body
    → body ≡ body_with (id ∷ [])
unfolding read_body
delayed-IsBodyOf id body e = ground arith

-- What a round finds, by the newest finalized and the newest proposed block.
abbrev disk_at : ℕ → ℕ → Disk
disk_at finalized_ proposed = record sample_disk {
  proposed_head = some (proposed ∷ []);
  finalized_head = some (finalized_ ∷ []);
}

abbrev tick_at : ℕ → ℕ → Tick
tick_at finalized_ proposed = record {
  stop = false;
  at_finalized = disk_at finalized_ proposed;
  at_proposed = disk_at finalized_ proposed;
  at_execute = disk_at finalized_ proposed;
}

tick_at-IsTick : (f p : ℕ) → IsTick delayed_codec delayed_ledger (λ n. n) (tick_at f p)
tick_at-IsTick f p = (
  (
    (delayed-IsHeaderOf, delayed-IsBodyOf),
    (delayed-IsHeaderOf, delayed-IsBodyOf),
    (delayed-IsHeaderOf, delayed-IsBodyOf),
  ),
  delayed-Consecutive,
  delayed-Consecutive,
  λ id e. refl,
)

-- Block 1 is finalized, then block 2; then block 3 is proposed, whose delayed result is not the one of
-- the hash chain.
abbrev three_rounds : List Tick
three_rounds = tick_at 1 1 ∷ tick_at 2 3 ∷ tick_at 2 3 ∷ []

abbrev delayed_run : End
delayed_run =
    run delayed_ext delayed_codec 9 3 1 true three_rounds
      (record { finalized_block_num = 0; block_cache = [] }) []

delayed_run-aborted : delayed_run.ending ≡ aborted
unfolding run read_ledger for_each_header walk handle_header header_at head_pointer_to_id
    continue_walk finalized_numbers committed read_body validate_delayed_execution_results
    propose_block collect_senders chain_context validate_live_execution_outputs propose_commit
delayed_run-aborted = refl

run-Fails_example :
    Fails delayed_ext delayed_codec delayed_ledger
      (λ n. n)
      delayed-IsNumbered
      delayed-IsFinalChain
      9
      3
      1
      true
      0
      sample-RecoversAll
      delayed-Lives
      (λ h id n above. refl)
      (λ h. refl)
      (omega arith)
      three_rounds
      (record { finalized_block_num = 0; block_cache = [] })
      []
unfolding finalized_numbers committed
run-Fails_example =
    run-Fails delayed_ext delayed_codec delayed_ledger (λ n. n) delayed-IsNumbered
      delayed-IsFinalChain 9 3 1 true 0 sample-RecoversAll delayed-Lives (λ h id n above. refl)
      (λ h. refl) (omega arith) three_rounds (record { finalized_block_num = 0; block_cache = [] })
      [] (tick_at-IsTick 1 1, (tick_at-IsTick 2 3, (tick_at-IsTick 2 3, tt))) tt
      (
        λ id e above. cc,
        λ id e above. cc,
        (λ pos. absurd (omega (arith, pos)), λ pos. absurd (omega (arith, pos))),
        tt,
      )
      (omega arith) tt delayed_run-aborted
