-- ===== src/Monad/Context/Rounds.antt =====
-- Every block that runloop_monad executes, over all its rounds.
use monad_fork.Monad.Reading.{Pending, Tick, read_ledger}
use monad_fork.Node.Outcome.{Outcome, ok, err, abort}
use monad_fork.Prelude.{
  Option, ◌≡◌, refl, ◌∙◌, inl, inr, ◌&&◌, none, some, [], ◌∷◌, arith, ℕ, ap, subst, Bool, not, List,
  ltb, Bool-cases, Option-cases, All,
}
use monad_fork.Node.Externals.{History, Externals}
use monad_fork.Monad.Runloop.{Node, after_round, round, run, work, is_empty}
use monad_fork.Ledger.{Codec, Disk}
use monad_fork.Monad.Context.{RecoversAll, Contents, Agrees}
use monad_fork.Monad.Cache.{BlockCache}
use monad_fork.Monad.Start.{warm_cache, enter_loop, runloop_monad}
use monad_fork.Monad.Context.Cached.{IsFaithful}
use monad_fork.Monad.Context.Filled.{warm_cache-IsFaithful}
use monad_fork.Monad.Context.Listed.{AgreesAt, read_ledger-IsListed}
use monad_fork.Monad.Context.Executed.{work-AllContexts, work-IsFaithful}
use monad_fork.Monad.Context.Proposed.{AllContexts}
use monad_fork.Node.Views.{Outcome-cases}
use monad_fork.Node.Ending.{End}

module _ (ext : Externals) (codec : Codec) (ledger : Contents) (recovers : RecoversAll ext)
    (fuel end_block_num start_block_num : ℕ) (tracing : Bool) where
  module _ (tick : Tick) (agrees : AgreesAt codec ledger tick) (s : Node) (h : History)
      (faithful : IsFaithful ext ledger s.block_cache) where
    abbrev rounded : Option (Outcome Node) × History
    rounded = round ext codec fuel end_block_num start_block_num tracing tick s h

    -- What is left of a round: the contexts of all that was executed, and the cache if it succeeds.
    round-keeps :
        AllContexts ext ledger h
        → AllContexts ext ledger rounded.1
          × ((s' : Node) → rounded.0 ≡ some (ok s') → IsFaithful ext ledger s'.block_cache)
    unfolding round
    round-keeps good =
        let w : Option (Outcome Pending) = read_ledger ext codec fuel end_block_num tick h in
        elim (Option-cases w) [
          | inl q ↦
              let same : h ≡ rounded.1 = ground arith in
              (subst (AllContexts ext ledger) same good, λ s' e. absurd (ground arith))
          | inr (o, q) ↦ elim (Outcome-cases o) [
            | inr bad ↦
                let same : h ≡ rounded.1 = ground arith in
                (subst (AllContexts ext ledger) same good, λ s' e. absurd (ground arith))
            | inl (p, read) ↦
                let listed =
                  read_ledger-IsListed ext codec ledger fuel end_block_num tick agrees h p
                    (q ∙ ap some read) in
                elim (Bool-cases (is_empty p.to_execute && is_empty p.to_finalize)) [
                  | inl idle ↦
                      let same : h ≡ rounded.1 = ground arith in
                      (
                        subst (AllContexts ext ledger) same good,
                        λ s' e.
                            let quiet : s ≡ s' = ground arith in
                            subst (λ x. IsFaithful ext ledger x.block_cache) quiet faithful,
                      )
                  | inr busy ↦
                      let worked : Outcome Node × History =
                        work ext codec fuel end_block_num start_block_num tracing tick s p h in
                      let same : worked.1 ≡ rounded.1 = ground arith in
                      (
                        subst (AllContexts ext ledger) same (
                            work-AllContexts ext codec ledger recovers fuel end_block_num
                              start_block_num tracing tick s p h agrees.2.1 listed faithful good),
                        λ s' e.
                            work-IsFaithful ext codec ledger recovers fuel end_block_num
                              start_block_num tracing tick s p h agrees.2.1 listed faithful s'
                              (ground arith),
                      )
                ]
          ]
        ]

  after_round-AllContexts :
      (go_on : Node → History → End) (s : Node) (r : Option (Outcome Node)) (h : History)
      → ((s' : Node) → r ≡ some (ok s') → AllContexts ext ledger (go_on s' h).history)
      → AllContexts ext ledger h
      → AllContexts ext ledger (after_round go_on s (r, h)).history
  unfolding after_round
  after_round-AllContexts go_on s none h go_on_keeps good = good
  after_round-AllContexts go_on s (some abort) h go_on_keeps good = good
  after_round-AllContexts go_on s (some (err e)) h go_on_keeps good = good
  after_round-AllContexts go_on s (some (ok s')) h go_on_keeps good = go_on_keeps s' refl

  run-AllContexts :
      (ticks : List Tick) (s : Node) (h : History)
      → All (AgreesAt codec ledger) ticks
      → IsFaithful ext ledger s.block_cache
      → AllContexts ext ledger h
      → AllContexts ext ledger
          (run ext codec fuel end_block_num start_block_num tracing ticks s h).history
  unfolding run
  run-AllContexts [] s h agrees faithful good = good
  run-AllContexts (tick ∷ ticks) s h agrees faithful good =
      elim (Bool-cases (ltb s.finalized_block_num end_block_num && not tick.stop)) [
        | inr e ↦ rw e good
        | inl e ↦
            let done = rounded tick agrees.0 s h faithful in
            let (kept, faithful') = round-keeps tick agrees.0 s h faithful good in
            rw e (
              after_round-AllContexts
                (run ext codec fuel end_block_num start_block_num tracing ticks) s done.0 done.1
                (λ s' q. run-AllContexts ticks s' done.1 agrees.1 (faithful' s' q) kept) kept)
      ]

module _ (ext : Externals) (codec : Codec) (ledger : Contents) (fuel : ℕ) (disk : Disk)
    (tracing : Bool) where
  enter_loop-AllContexts :
      (ticks : List Tick) (block_num end_ : ℕ) (h : History)
      (warmed : Option (Outcome (ℕ × BlockCache)))
      → RecoversAll ext
      → All (AgreesAt codec ledger) ticks
      → ((head : ℕ) (cache : BlockCache)
          → warmed ≡ some (ok (head, cache))
          → IsFaithful ext ledger cache)
      → AllContexts ext ledger h
      → AllContexts ext ledger
          (enter_loop ext codec fuel ticks block_num end_ tracing h warmed).history
  unfolding enter_loop
  enter_loop-AllContexts ticks n end_ h none recovers agrees faithful good = good
  enter_loop-AllContexts ticks n end_ h (some abort) recovers agrees faithful good = good
  enter_loop-AllContexts ticks n end_ h (some (err e)) recovers agrees faithful good = good
  enter_loop-AllContexts ticks n end_ h (some (ok (head, cache))) recovers agrees faithful good =
      run-AllContexts ext codec ledger recovers fuel end_ n tracing ticks _ h agrees
        (faithful head cache refl) good

  -- Where the disk always holds the same ledger, every block that a run of runloop_monad executes is
  -- executed with the chain context that its ancestors in the ledger give: from block 2 on the
  -- senders and authorities of its parent, from block 3 on those of its grandparent, before that
  -- none, and always its own.
  pub runloop_monad_contexts :
      (ticks : List Tick) (block_num end_ : ℕ) (h : History)
      → RecoversAll ext
      → Agrees codec ledger disk
      → All (AgreesAt codec ledger) ticks
      → AllContexts ext ledger h
      → AllContexts ext ledger
          (runloop_monad ext codec fuel disk ticks block_num end_ tracing h).history
  unfolding runloop_monad
  runloop_monad_contexts ticks block_num end_ h recovers warm agrees good =
      enter_loop-AllContexts ticks block_num end_ h (warm_cache ext codec fuel disk h) recovers
        agrees (warm_cache-IsFaithful ext codec ledger fuel disk warm h) good
