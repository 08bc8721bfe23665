-- ===== src/Monad/Context/Lives.antt =====
-- The rounds of runloop_monad, and what can end the process in them.
use monad_fork.Prelude.{
  ◌⊎◌, Option, ◌<◌, ◌≡◌, refl, ◌∙◌, inl, inr, ◌&&◌, none, some, [], ◌∷◌, arith, ℕ, sym, subst,
  subst₂, Bool, not, List, ltb, Bool-cases, Option-cases, u64_max, All, ap,
}
use monad_fork.Monad.Validate.Laws.{numbers}
use monad_fork.Monad.Context.Present.{IsNumbered, ids, Lives}
use monad_fork.Monad.Reading.{Pending, Tick, read_ledger}
use monad_fork.Node.Outcome.{Outcome, ok, err, abort}
use monad_fork.Node.Externals.{History, Externals}
use monad_fork.Monad.Runloop.{Node, after_round, round, run, work, is_empty}
use monad_fork.Ledger.{Codec}
use monad_fork.Monad.Context.{RecoversAll, Contents}
use monad_fork.Monad.Context.Lasting.{Holds, work-BadAt, work-Holds}
use monad_fork.Monad.Context.Found.{IsTick}
use monad_fork.Monad.Context.Ready.{MeetsBad}
use monad_fork.Monad.Context.Cached.{IsFaithful}
use monad_fork.Monad.Context.Kept.{CountsExecuted, IsNumberedBy, Keeps}
use monad_fork.Monad.Context.Readied.{IsFinalChain}
use monad_fork.Monad.Runloop.Progress.{Tracks}
use monad_fork.Node.Views.{committed, Outcome-cases}
use monad_fork.Node.Ending.{aborted, End}

module _ (ext : Externals) (codec : Codec) (ledger : Contents) (final : ℕ → ℕ)
    (numbered : IsNumbered ledger) (finals : IsFinalChain ledger final)
    (fuel end_block_num start_block_num : ℕ) (tracing : Bool) (first : ℕ)
    (recovers : RecoversAll ext) (lives : Lives ext) (counts : CountsExecuted ext)
    (tracks : Tracks ext first) (bounded : end_block_num < u64_max) where
  abbrev Between : Node → History → Type 0
  Between s h =
      Holds ext codec ledger final numbered finals fuel end_block_num start_block_num tracing first
        recovers lives counts tracks bounded s h

  abbrev rounded : Tick → Node → History → Option (Outcome Node) × History
  rounded tick s h = round ext codec fuel end_block_num start_block_num tracing tick s h

  -- What ends the process in a round: a walk over the ledger's files, or a bad block.
  abbrev pub FailsAt : Tick → Node → History → Type 0
  FailsAt tick s h =
      (read_ledger ext codec fuel end_block_num tick h ≡ some abort)
      ⊎ ((p : Pending) × (read_ledger ext codec fuel end_block_num tick h ≡ some (ok p))
          × MeetsBad ext codec tick.at_execute.bodies start_block_num tracing
              (ext.latest_finalized_version h) p.to_execute s.block_cache h)

  -- One of the rounds that the loop comes to fails so.
  abbrev pub Fails : List Tick → Node → History → Type 0
  Fails [] s h = ⊥
  Fails (tick ∷ ticks) s h =
      FailsAt tick s h
      ⊎ ((s' : Node) × ((rounded tick s h).0 ≡ some (ok s')) × Fails ticks s' (rounded tick s h).1)

  round-Between :
      (tick : Tick) (s s' : Node) (h : History)
      → IsTick codec ledger final tick
      → Between s h
      → (rounded tick s h).0 ≡ some (ok s')
      → Between s' (rounded tick s h).1
  unfolding round
  round-Between tick s s' h good holds e =
      let w : Option (Outcome Pending) = read_ledger ext codec fuel end_block_num tick h in
      elim (Option-cases w) [
        | inl q ↦ absurd (ground arith)
        | inr (o, q) ↦ elim (Outcome-cases o) [
          | inr bad ↦ absurd (ground arith)
          | inl (p, fine) ↦
              let found : w ≡ some (ok p) = q ∙ ap some fine in
              elim (Bool-cases (is_empty p.to_execute && is_empty p.to_finalize)) [
                | inl idle ↦
                    let same : s ≡ s' = ground arith in
                    let quiet : h ≡ (rounded tick s h).1 = ground arith in
                    subst₂ (λ x y. Between x y) same quiet holds
                | inr busy ↦
                    let done : Outcome Node × History =
                      work ext codec fuel end_block_num start_block_num tracing tick s p h in
                    let same : rounded tick s h ≡ (some done.0, done.1) = ground arith in
                    subst (λ x. Between s' x) (ap (λ x. x.1) (sym same))
                      (work-Holds ext codec ledger final numbered finals fuel end_block_num
                        start_block_num tracing first recovers lives counts tracks bounded tick good
                        s p h holds found s' (ground arith))
              ]
        ]
      ]

  round-FailsAt :
      (tick : Tick) (s : Node) (h : History)
      → IsTick codec ledger final tick
      → Between s h
      → (rounded tick s h).0 ≡ some abort
      → FailsAt tick s h
  unfolding round
  round-FailsAt tick s h good holds e =
      let w : Option (Outcome Pending) = read_ledger ext codec fuel end_block_num tick h in
      elim (Option-cases w) [
        | inl q ↦ absurd (ground arith)
        | inr (o, q) ↦ elim (Outcome-cases o) [
          | inr bad ↦ inl (ground arith)
          | inl (p, fine) ↦
              let found : w ≡ some (ok p) = q ∙ ap some fine in
              inr (
                p,
                found,
                work-BadAt ext codec ledger final numbered finals fuel end_block_num start_block_num
                    tracing first recovers lives counts tracks bounded tick good s p h holds found
                    (ground arith),
              )
        ]
      ]

  after_round-Fails :
      (go_on : Node → History → End) (s : Node) (r : Option (Outcome Node)) (h : History)
      → (after_round go_on s (r, h)).ending ≡ aborted
      → (r ≡ some abort) ⊎ ((s' : Node) × (r ≡ some (ok s')) × ((go_on s' h).ending ≡ aborted))
  unfolding after_round
  after_round-Fails go_on s none h e = absurd (ground arith)
  after_round-Fails go_on s (some abort) h e = inl refl
  after_round-Fails go_on s (some (err x)) h e = absurd (ground arith)
  after_round-Fails go_on s (some (ok s')) h e = inr (s', refl, e)

  -- When the main loop of runloop_monad ends the process, then in one of its rounds a walk over the
  -- ledger's files did, or a block to be executed was bad when it had its turn: its body could not be
  -- read, its revision is unknown, or its delayed results are not those of the hash chain. So no
  -- assert on the block cache fails, over any number of rounds and with proposals on any forks. For
  -- this the cache must hold at first, with the right sets and numbers, the latest finalized block and
  -- the one before it, the blocks from there on that were executed, and no other block behind the
  -- latest finalized one; the blocks committed so far have their sequence numbers; behind the latest
  -- finalized block the database has a proposal at exactly the number that it was committed with;
  -- consensus finalizes one chain, which the finalized head of each round is on; the disks of the
  -- rounds hold blocks of one ledger, numbered by their sequence numbers, each one above its parent;
  -- the latest finalized version is that of the last call to finalize; the sender recovery gives one
  -- result for each transaction; the other libraries do not end the process; and the last block, and
  -- the latest finalized one at first, lie below the largest number.
  pub run-Fails :
      (ticks : List Tick) (s : Node) (h : History)
      → All (IsTick codec ledger final) ticks
      → IsFaithful ext ledger s.block_cache
      → Keeps ledger final (ext.latest_finalized_version h) (ids (committed h)) s.block_cache
      → ext.latest_finalized_version h < u64_max
      → IsNumberedBy ledger (committed h)
      → (run ext codec fuel end_block_num start_block_num tracing ticks s h).ending ≡ aborted
      → Fails ticks s h
  unfolding run
  run-Fails [] s h good faithful keeps small numbers e =
      elim (Bool-cases (ltb s.finalized_block_num end_block_num)) [
        | inl q ↦ absurd (ground arith)
        | inr q ↦ absurd (ground arith)
      ]
  run-Fails (tick ∷ ticks) s h (here, good) faithful keeps small numbers e =
      let holds : Between s h = (faithful, keeps, small, numbers) in
      elim (Bool-cases (ltb s.finalized_block_num end_block_num && not tick.stop)) [
        | inr q ↦ absurd (ground arith)
        | inl q ↦
            elim (after_round-Fails (run ext codec fuel end_block_num start_block_num tracing ticks)
              s (rounded tick s h).0 (rounded tick s h).1 (ground arith)) [
                | inl p ↦ inl (round-FailsAt tick s h here holds p)
                | inr (s', p, more) ↦
                    let (faithful', keeps', small', numbers') =
                      round-Between tick s s' h here holds p in
                    inr (
                      s',
                      p,
                      run-Fails ticks s' (rounded tick s h).1 good faithful' keeps' small' numbers'
                          more,
                    )
              ]
      ]
