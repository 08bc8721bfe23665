-- ===== src/Monad/Start.antt =====
-- runloop_monad from its call: the cache is filled from the last finalized blocks, then the main
-- loop runs.
pub mod Laws
use monad_fork.Prelude.{◌-◌, none, some, [], ◌∷◌, ◌!=◌, if◌then◌else◌, ℕ, Bool, Option, List, ltb}
use monad_fork.Ledger.{Codec, Disk, read_body}
use monad_fork.Monad.Runloop.{run}
use monad_fork.Ledger.Walk.{for_each_header}
use monad_fork.Monad.Reading.{Tick}
use monad_fork.Monad.Cache.{BlockCache, emplace}
use monad_fork.Node.Senders.{senders_and_authorities}
use monad_fork.Node.Externals.{History, Externals}
use monad_fork.Node.Outcome.{Outcome, ok, err, abort, and_then, assert_that}
use monad_fork.Node.Ending.{running, aborted, failed, End}
use monad_fork.Node.Block.{Bytes, ConsensusHeader}

-- Here a missing sender ends the process.
unfoldable pub present_senders : List (Option ℕ) → Outcome (List ℕ)
present_senders [] = ok []
present_senders (none ∷ recovered) = abort
present_senders (some a ∷ recovered) =
    and_then (present_senders recovered) λ senders. ok (a ∷ senders)

unfoldable pub on_cached :
    Externals → Codec → (ℕ → Option Bytes) → ℕ → ConsensusHeader → BlockCache → Outcome BlockCache
unfolding present_senders
on_cached ext codec bodies id header cache =
    and_then (read_body codec bodies header.block_body_id) λ body.
      and_then (present_senders (ext.recover_senders body.transactions)) λ senders.
        emplace cache id (record {
          block_number = header.seqno;
          parent_id = header.parent_id;
          senders_and_authorities =
              senders_and_authorities senders (ext.recover_authorities body.transactions);
        })

-- The blocks behind this one are put into the cache.
unfoldable pub cache_start : ℕ → ℕ
cache_start last_finalized = if ltb 2 last_finalized then last_finalized - 2 else 0

unfoldable pub warm_cache :
    Externals → Codec → ℕ → Disk → History → Option (Outcome (ℕ × BlockCache))
unfolding on_cached cache_start
warm_cache ext codec fuel disk h =
    let last_finalized = ext.latest_finalized_version h in
    elim (assert_that (last_finalized != ext.invalid_block_num)) [
      | ok _ ↦
          for_each_header codec disk.headers (cache_start last_finalized) last_finalized
            (on_cached ext codec disk.bodies) fuel disk.finalized_head []
      | err e ↦ some (err e)
      | abort ↦ some abort
    ]

-- The main loop, once the cache is filled.
unfoldable pub enter_loop :
    Externals
    → Codec
    → ℕ
    → List Tick
    → ℕ
    → ℕ
    → Bool
    → History
    → Option (Outcome (ℕ × BlockCache))
    → End
enter_loop ext codec fuel ticks n end_ enable_tracing h none = record {
  ending = running;
  block_num = n;
  history = h;
}
enter_loop ext codec fuel ticks n end_ enable_tracing h (some (err e)) = record {
  ending = failed e;
  block_num = n;
  history = h;
}
enter_loop ext codec fuel ticks n end_ enable_tracing h (some abort) = record {
  ending = aborted;
  block_num = n;
  history = h;
}
enter_loop ext codec fuel ticks n end_ enable_tracing h (some (ok (head, cache))) =
    run ext codec fuel end_ n enable_tracing ticks
      (record { finalized_block_num = n; block_cache = cache }) h

unfoldable pub runloop_monad :
    Externals → Codec → ℕ → Disk → List Tick → ℕ → ℕ → Bool → History → End
unfolding warm_cache enter_loop
runloop_monad ext codec fuel disk ticks finalized_block_num end_ enable_tracing h =
    enter_loop ext codec fuel ticks finalized_block_num end_ enable_tracing h
      (warm_cache ext codec fuel disk h)
