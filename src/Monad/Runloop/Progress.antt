-- ===== src/Monad/Runloop/Progress.antt =====
-- Over all rounds of runloop_monad, the finalized blocks go up by one.
use monad_fork.Prelude.{
  none, not, ltb, All, ◌-◌, ◌≤◌, ◌∙◌, ◌&&◌, some, ap, Bool-cases, Option-cases, u64_max, ℕ, ◌+◌,
  ◌≡◌, refl, inl, inr, [], ◌∷◌, arith, Bool, Option, List,
}
use monad_fork.Monad.Runloop.{after_round, run, round, is_empty, Node, work}
use monad_fork.Monad.Runloop.Laws.{Extends-trans, rev_onto-ascending, Extends-same, newest, Extends}
use monad_fork.Node.Outcome.{ok, err, abort, Outcome}
use monad_fork.Node.Ending.{End}
use monad_fork.Monad.Finalize.Laws.{rev_onto, blocks, finalize_all_lem}
use monad_fork.Ledger.Range.{Consecutive, ascending}
use monad_fork.Monad.Reading.{read_ledger, ToExecute, Pending, Tick}
use monad_fork.Monad.Reading.Laws.{read_ledger-ascending}
use monad_fork.Monad.Cache.{BlockCache}
use monad_fork.Node.Externals.{History, Externals}
use monad_fork.Ledger.{Codec}
use monad_fork.Monad.Finalize.{execute_all}
use monad_fork.Monad.Handle.{handle_to_execute}
use monad_fork.Monad.Handle.Laws.{handle-finalized_numbers}
use monad_fork.Node.Views.{Outcome-cases, finalized_numbers}
use monad_fork.Node.Block.{Bytes}

-- The database's latest finalized version is the number that was finalized last, and `first` before.
abbrev pub Tracks : Externals → ℕ → Type 0
Tracks ext first =
    (h : History) → ext.latest_finalized_version h ≡ newest first (finalized_numbers h)

module _ (ext : Externals) (codec : Codec) (fuel end_block_num start_block_num : ℕ)
    (tracing : Bool) where
  pub execute_all-finalized_numbers :
      (bodies : ℕ → Option Bytes) (last_finalized : ℕ) (l : List ToExecute) (cache : BlockCache)
      (h : History)
      → finalized_numbers
          (execute_all ext codec bodies start_block_num tracing last_finalized l cache h).1
        ≡ finalized_numbers h
  unfolding execute_all
  execute_all-finalized_numbers bodies last_finalized [] cache h = refl
  execute_all-finalized_numbers bodies last_finalized ((id, header) ∷ rest) cache h =
      let done : Outcome BlockCache × History =
        handle_to_execute ext codec bodies start_block_num tracing last_finalized id header cache
          h in
      let quiet =
        handle-finalized_numbers ext codec bodies start_block_num tracing last_finalized id header
          cache h in
      elim (Outcome-cases done.0) [
        | inr bad ↦ ground (arith, quiet)
        | inl (cache', good) ↦
            ground
              (arith, quiet, execute_all-finalized_numbers bodies last_finalized rest cache' done.1)
      ]

  work-Extends :
      (first k : ℕ) (tick : Tick) (s : Node) (p : Pending) (h : History)
      → blocks p.to_finalize ≡ ascending k (newest first (finalized_numbers h) + 1)
      → k ≤ end_block_num - newest first (finalized_numbers h)
      → Extends first end_block_num h
          (work ext codec fuel end_block_num start_block_num tracing tick s p h).1
  unfolding work
  work-Extends first k tick s p h e bound =
      let last_finalized : ℕ = ext.latest_finalized_version h in
      let done : Outcome BlockCache × History =
        execute_all ext codec tick.at_execute.bodies start_block_num tracing last_finalized
          p.to_execute s.block_cache h in
      let quiet =
        execute_all-finalized_numbers tick.at_execute.bodies last_finalized p.to_execute
          s.block_cache h in
      elim (Outcome-cases done.0) [
        | inr bad ↦ Extends-same first end_block_num h _ (ground (arith, quiet))
        | inl (cache, good) ↦
            let finalized = finalize_all_lem ext p.to_finalize s.finalized_block_num done.1 in
            let onto : finalized_numbers
                  (work ext codec fuel end_block_num start_block_num tracing tick s p h).1
                ≡ rev_onto (blocks p.to_finalize) (finalized_numbers h) =
              ground (arith, quiet, finalized) in
            (
              k,
              onto
                  ∙ ap (λ l. rev_onto l (finalized_numbers h)) e
                  ∙ rev_onto-ascending k (newest first (finalized_numbers h) + 1)
                      (finalized_numbers h),
              bound,
            )
      ]

  abbrev a_round : Tick → Node → History → Option (Outcome Node) × History
  a_round tick s h = round ext codec fuel end_block_num start_block_num tracing tick s h

  round-Extends :
      (first : ℕ) (tick : Tick) (s : Node) (h : History)
      → Tracks ext first
      → Consecutive codec tick.at_finalized.headers
      → end_block_num ≤ u64_max
      → Extends first end_block_num h (a_round tick s h).1
  unfolding round
  round-Extends first tick s h tracks con small =
      let w : Option (Outcome Pending) = read_ledger ext codec fuel end_block_num tick h in
      elim (Option-cases w) [
        | inl q ↦ Extends-same first end_block_num h _ (ground arith)
        | inr (o, q) ↦ elim (Outcome-cases o) [
          | inr bad ↦ Extends-same first end_block_num h _ (ground arith)
          | inl (p, good) ↦ elim (Bool-cases (is_empty p.to_execute && is_empty p.to_finalize)) [
            | inl idle ↦ Extends-same first end_block_num h _ (ground arith)
            | inr busy ↦
                let (k, up, bound) =
                  read_ledger-ascending ext codec fuel end_block_num tick h p con small
                    (q ∙ ap some good) in
                let same : (a_round tick s h).1
                    ≡ (work ext codec fuel end_block_num start_block_num tracing tick s p h).1 =
                  ground arith in
                rw same (
                  work-Extends first k tick s p h (up ∙ ap (λ n. ascending k (n + 1)) (tracks h))
                    (omega (arith, tracks h)))
          ]
        ]
      ]

  after_round-Extends :
      (first : ℕ) (go_on : Node → History → End) (s : Node) (h : History)
      (o : Option (Outcome Node)) (h' : History)
      → ((s' : Node) → Extends first end_block_num h' (go_on s' h').history)
      → Extends first end_block_num h h'
      → Extends first end_block_num h (after_round go_on s (o, h')).history
  unfolding after_round
  after_round-Extends first go_on s h none h' ih x = x
  after_round-Extends first go_on s h (some abort) h' ih x = x
  after_round-Extends first go_on s h (some (err e)) h' ih x = x
  after_round-Extends first go_on s h (some (ok s')) h' ih x =
      Extends-trans first end_block_num h h' (go_on s' h').history x (ih s')

  pub run-Extends :
      (first : ℕ) (ticks : List Tick) (s : Node) (h : History)
      → Tracks ext first
      → All (λ tick. Consecutive codec tick.at_finalized.headers) ticks
      → end_block_num ≤ u64_max
      → Extends first end_block_num h
          (run ext codec fuel end_block_num start_block_num tracing ticks s h).history
  unfolding run
  run-Extends first [] s h tracks con small = Extends-same first end_block_num h h refl
  run-Extends first (tick ∷ ticks) s h tracks con small =
      elim (Bool-cases (ltb s.finalized_block_num end_block_num && not tick.stop)) [
        | inr e ↦ rw e (Extends-same first end_block_num h h refl)
        | inl e ↦
            let x = round-Extends first tick s h tracks con.0 small in
            rw e (
              after_round-Extends first
                (run ext codec fuel end_block_num start_block_num tracing ticks) s h
                (a_round tick s h).0 (a_round tick s h).1
                (λ s'. run-Extends first ticks s' (a_round tick s h).1 tracks con.1 small) x)
      ]
