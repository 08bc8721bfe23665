-- ===== src/Monad/Start/Laws.antt =====
-- The whole run of runloop_monad.
use monad_fork.Prelude.{
  ◌∙◌, some, [], ◌∷◌, ap, Option, ◌≤◌, ◌<◌, ◌≡◌, refl, none, arith, ℕ, Bool, List, u64_max, All,
}
use monad_fork.Monad.Runloop.{Node, run}
use monad_fork.Monad.Start.{enter_loop, warm_cache, runloop_monad}
use monad_fork.Node.Ending.{returned}
use monad_fork.Main.{end_block_num}
use monad_fork.Ledger.{Codec, Disk}
use monad_fork.Ledger.Range.{Consecutive}
use monad_fork.Monad.Reading.{Tick}
use monad_fork.Monad.Cache.{BlockCache}
use monad_fork.Monad.Runloop.Progress.{Tracks, run-Extends}
use monad_fork.Monad.Runloop.Laws.{Extends, Extends-same}
use monad_fork.Node.Externals.{History, Externals}
use monad_fork.Node.Outcome.{Outcome, ok, err, abort}
use monad_fork.Main.Laws.{end_block_num_lem}

module _ (ext : Externals) (codec : Codec) (fuel : ℕ) (disk : Disk) (tracing : Bool) where
  enter_loop-Extends :
      (ticks : List Tick) (first block_num end_ : ℕ) (h : History)
      (warmed : Option (Outcome (ℕ × BlockCache)))
      → Tracks ext first
      → All (λ tick. Consecutive codec tick.at_finalized.headers) ticks
      → end_ ≤ u64_max
      → Extends first end_ h
          (enter_loop ext codec fuel ticks block_num end_ tracing h warmed).history
  unfolding enter_loop
  enter_loop-Extends ticks first n end_ h none tracks con small = Extends-same first end_ h h refl
  enter_loop-Extends ticks first n end_ h (some (err e)) tracks con small =
      Extends-same first end_ h h refl
  enter_loop-Extends ticks first n end_ h (some abort) tracks con small =
      Extends-same first end_ h h refl
  enter_loop-Extends ticks first n end_ h (some (ok (head, cache))) tracks con small =
      run-Extends ext codec fuel end_ n tracing first ticks _ h tracks con small

  -- Whatever the rounds find on the disk, as long as parents have the sequence number before their
  -- child's, and however the run ends, the blocks that it finalizes are the next ones behind the
  -- latest finalized block: without a gap, a repetition or a step back, and none beyond the last
  -- block asked for.
  pub runloop_monad_finalizes :
      (ticks : List Tick) (first block_num end_ : ℕ) (h : History)
      → Tracks ext first
      → All (λ tick. Consecutive codec tick.at_finalized.headers) ticks
      → end_ ≤ u64_max
      → Extends first end_ h
          (runloop_monad ext codec fuel disk ticks block_num end_ tracing h).history
  unfolding runloop_monad
  runloop_monad_finalizes ticks first block_num end_ h tracks con small =
      enter_loop-Extends ticks first block_num end_ h (warm_cache ext codec fuel disk h) tracks con
        small

  run_at_end :
      (ticks : List Tick) (n : ℕ) (s : Node) (h : History)
      → s.finalized_block_num ≡ n
      → run ext codec fuel n n tracing ticks s h
        ≡ record { ending = returned 0 0; block_num = n; history = h }
  unfolding run
  run_at_end [] n s h e = ground arith
  run_at_end (tick ∷ ticks) n s h e = ground arith

  enter_loop_at_end :
      (ticks : List Tick) (n : ℕ) (h : History) (warmed : Option (Outcome (ℕ × BlockCache)))
      → ((enter_loop ext codec fuel ticks n n tracing h warmed).history ≡ h)
        × ((enter_loop ext codec fuel ticks n n tracing h warmed).block_num ≡ n)
  unfolding enter_loop
  enter_loop_at_end ticks n h none = (refl, refl)
  enter_loop_at_end ticks n h (some (err e)) = (refl, refl)
  enter_loop_at_end ticks n h (some abort) = (refl, refl)
  enter_loop_at_end ticks n h (some (ok (head, cache))) =
      let r = run_at_end ticks n (record { finalized_block_num = n; block_cache = cache }) h refl in
      (ap (λ x. x.history) r, ap (λ x. x.block_num) r)

  -- With `--nblocks 1`, whatever lies in the ledger, runloop_monad makes no call: the block that was
  -- asked for is neither executed nor finalized, and `block_num` stays at it.
  pub runloop_monad_one_block :
      (ticks : List Tick) (block_num : ℕ) (h : History)
      → 0 < block_num
      → block_num ≤ u64_max
      → let r =
          runloop_monad ext codec fuel disk ticks block_num (end_block_num block_num 1) tracing h in
        (r.history ≡ h) × (r.block_num ≡ block_num)
  unfolding runloop_monad
  runloop_monad_one_block ticks block_num h pos small =
      let e : end_block_num block_num 1 ≡ block_num =
        end_block_num_lem block_num 1 pos small (omega arith) ∙ omega arith in
      rw e (enter_loop_at_end ticks block_num h (warm_cache ext codec fuel disk h))
