-- ===== src/Main/Run/Laws.antt =====
-- The blocks that a run of the node finalizes, whichever runner is chosen.
use monad_fork.Prelude.{
  min, length, add64, zero, suc, ◌+◌, ◌≤◌, ◌<◌, ◌≡◌, refl, ◌∙◌, [], ◌∷◌, arith, sym, ap, Bool, List,
  map, u64_max, All, ℕ,
}
use monad_fork.Ethereum.Runloop.Laws.{count_up, NamesByNumber, runloop_range}
use monad_fork.Main.{select_runner, end_block_num, Runner, ethereum, monad_ethblocks, monad}
use monad_fork.Node.Outcome.{Outcome, err, abort, ok}
use monad_fork.Main.Run.{
  run_from, with_hashes, with_start, NodeOptions, World, call_runner, run_node,
}
use monad_fork.Main.Start.{InitialState, init_block_num}
use monad_fork.EthBlocks.Runloop.Range.{runloop_monad_ethblocks_finalizes}
use monad_fork.Ledger.Range.{Consecutive}
use monad_fork.Monad.Runloop.Progress.{Tracks}
use monad_fork.Monad.Runloop.Laws.{numbers_up, newest}
use monad_fork.Monad.Start.Laws.{runloop_monad_finalizes}
use monad_fork.Node.Views.{finalized, finalized_numbers}
use monad_fork.Node.Externals.{finalize, History}
use monad_fork.Main.Laws.{end_block_num_lem}

finalized-numbers : (h : History) → map (λ p. p.0) (finalized h) ≡ finalized_numbers h
unfolding finalized finalized_numbers
finalized-numbers [] = refl
finalized-numbers (finalize n id ∷ h) = ap (◌∷◌ n) (finalized-numbers h)
finalized-numbers (_ ∷ h) = finalized-numbers h

count_up-numbers :
    (k a : ℕ) (acc : List (ℕ × ℕ))
    → map (λ p. p.0) (count_up k a acc) ≡ numbers_up k a (map (λ p. p.0) acc)
count_up-numbers zero a acc = refl
count_up-numbers (suc k) a acc = count_up-numbers k (a + 1) ((a, a) ∷ acc)

-- From `h` to `h'` the blocks behind `first` were finalized, one after the other, and at most `n`.
abbrev pub Follows : ℕ → ℕ → History → History → Type 0
Follows first n h h' =
    (k : ℕ) × (finalized_numbers h' ≡ numbers_up k (first + 1) (finalized_numbers h)) × (k ≤ n)

as_numbers :
    (first n k : ℕ) (h h' : History)
    → finalized h' ≡ count_up k (first + 1) (finalized h)
    → k ≤ n
    → Follows first n h h'
as_numbers first n k h h' e bound = (
  k,
  sym (finalized-numbers h')
      ∙ ap (map (λ p. p.0)) e
      ∙ count_up-numbers k (first + 1) (finalized h)
      ∙ ap (numbers_up k (first + 1)) (finalized-numbers h),
  bound,
)

pub none_done : (first n : ℕ) (h : History) → Follows first n h h
none_done first n h = (0, refl, omega arith)

module _ (w : World) where
  call_runner-Follows :
      (tracing : Bool) (r : Runner) (first n end_ : ℕ) (h : History)
      → Tracks w.ext first
      → newest first (finalized_numbers h) ≡ first
      → NamesByNumber w.block_db
      → All (λ tick. Consecutive w.codec tick.at_finalized.headers) w.ticks
      → end_ ≤ first + n
      → end_ ≤ u64_max
      → min end_ (first + 1 + length w.stops) < u64_max
      → Follows first n h (call_runner w tracing (first + 1) end_ h r).history
  unfolding call_runner
  call_runner-Follows tracing ethereum first n end_ h tracks here named con inside fits small =
      let (k, e, bound) =
        runloop_range w.ext w.block_db end_ tracing (first + 1) w.stops h named small in
      as_numbers first n k h _ e (omega (arith, bound))
  call_runner-Follows tracing monad_ethblocks first n end_ h tracks here named con inside fits
        small =
      let (k, e, bound) =
        runloop_monad_ethblocks_finalizes w.ext w.block_db end_ tracing (first + 1) w.stops h named
          small in
      as_numbers first n k h _ e (omega (arith, bound))
  call_runner-Follows tracing monad first n end_ h tracks here named con inside fits small =
      let (k, e, bound) =
        runloop_monad_finalizes w.ext w.codec w.fuel w.disk tracing w.ticks first (first + 1) end_ h
          tracks con fits in
      (k, e ∙ ap (λ a. numbers_up k (a + 1) (finalized_numbers h)) here, omega (arith, bound, here))

  with_hashes-Follows :
      (options : NodeOptions) (first : ℕ) (h : History) (r : Outcome (Unit {0}))
      → Follows first options.nblocks h (run_from w options (first + 1) h).history
      → Follows first options.nblocks h (with_hashes w options (first + 1) h r).history
  unfolding with_hashes
  with_hashes-Follows options first h (ok _) run = run
  with_hashes-Follows options first h (err e) run = none_done first options.nblocks h
  with_hashes-Follows options first h abort run = none_done first options.nblocks h

-- From the block that the database is found at, the node finalizes the next blocks in their order,
-- without a gap or a repetition, and no more than it was asked for, whichever chain it runs and
-- however the run ends; under the hypotheses of the runners, and where its rounds do not come to the
-- largest block number.
pub run_node_finalizes :
    (w : World) (options : NodeOptions) (db : InitialState) (first : ℕ) (h : History)
    → init_block_num db options.snapshot options.has_statesync ≡ ok first
    → Tracks w.ext first
    → newest first (finalized_numbers h) ≡ first
    → NamesByNumber w.block_db
    → All (λ tick. Consecutive w.codec tick.at_finalized.headers) w.ticks
    → options.nblocks ≤ u64_max
    → first + 1 + min options.nblocks (length w.stops) < u64_max
    → Follows first options.nblocks h (run_node w options db h).history
unfolding run_node with_start run_from
run_node_finalizes w options db first h found tracks here named con few small =
    let start : add64 first 1 ≡ first + 1 = omega arith in
    let end_ : ℕ = min u64_max (first + options.nblocks) in
    let last_ : end_block_num (first + 1) options.nblocks ≡ end_ =
      end_block_num_lem (first + 1) options.nblocks (omega arith) (omega arith) few ∙ omega arith in
    let run =
      call_runner-Follows w options.trace_calls (select_runner options.chain options.as_eth_blocks)
        first options.nblocks end_ h tracks here named con (omega arith) (omega arith)
        (omega arith) in
    rw (found, start) (with_hashes-Follows w options first h _ (rw last_ run))
