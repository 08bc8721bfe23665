-- ===== src/Monad/Runloop.antt =====
-- The main loop of runloop_monad.
pub mod Laws
pub mod Progress
use monad_fork.Node.Ending.{End, running, aborted, returned, failed}
use monad_fork.Prelude.{
  true, false, ◌&&◌, none, some, [], ◌∷◌, if◌then◌else◌, ℕ, Bool, not, Option, List, ltb,
}
use monad_fork.Node.Run.{◌>>=◌, ◌>>◌, Run, pure}
use monad_fork.Ledger.{Codec}
use monad_fork.Monad.Reading.{Pending, Tick, read_ledger}
use monad_fork.Monad.Finalize.{finalize_all, execute_all, prune}
use monad_fork.Monad.Cache.{BlockCache}
use monad_fork.Node.Externals.{History, Externals}
use monad_fork.Node.Outcome.{Outcome, ok, err, abort}

-- What lives through the rounds.
pub record Node : Type 0 where
  pub finalized_block_num : ℕ
  pub block_cache : BlockCache

abbrev pub is_empty : {A : Type 0} → List A → Bool
is_empty [] = true
is_empty (x ∷ rest) = false

-- An error leaves the caller's finalized_block_num as the last whole round left it: only work that
-- cannot fail comes after its first change.
unfoldable pub after_round : (Node → History → End) → Node → Option (Outcome Node) × History → End
after_round go_on s (some (ok s'), h) = go_on s' h
after_round go_on s (some (err e), h) = record {
  ending = failed e;
  block_num = s.finalized_block_num;
  history = h;
}
after_round go_on s (some abort, h) = record {
  ending = aborted;
  block_num = s.finalized_block_num;
  history = h;
}
after_round go_on s (none, h) = record {
  ending = running;
  block_num = s.finalized_block_num;
  history = h;
}

module _ (ext : Externals) (codec : Codec) (fuel end_block_num start_block_num : ℕ)
    (enable_tracing : Bool) where
  -- What a round does once the ledger is read.
  unfoldable pub work : Tick → Node → Pending → Run Node
  unfolding execute_all finalize_all prune
  work tick s p h =
      let last_finalized = ext.latest_finalized_version h in
      (do
        cache ←
            execute_all ext codec tick.at_execute.bodies start_block_num enable_tracing
              last_finalized p.to_execute s.block_cache
        n ← finalize_all ext p.to_finalize s.finalized_block_num
        pure (record { finalized_block_num = n; block_cache = prune p.to_finalize cache }))
        h

  -- With nothing to do a round sleeps.
  unfoldable pub round : Tick → Node → History → Option (Outcome Node) × History
  unfolding work read_ledger
  round tick s h = elim (read_ledger ext codec fuel end_block_num tick h) [
    | none ↦ (none, h)
    | some (err e) ↦ (some (err e), h)
    | some abort ↦ (some abort, h)
    | some (ok p) ↦
        if is_empty p.to_execute && is_empty p.to_finalize
        then (some (ok s), h)
        else let (r, h') = work tick s p h in (some r, h')
  ]

  -- The while loop, over what the rounds are given. It is still running when that is used up, or
  -- while a walk over headers has used up its fuel. Nothing is ever added to `ntxs` and `total_gas`.
  unfoldable pub run : List Tick → Node → History → End
  unfolding round after_round
  run [] s h = record {
    ending = if ltb s.finalized_block_num end_block_num then running else returned 0 0;
    block_num = s.finalized_block_num;
    history = h;
  }
  run (tick ∷ ticks) s h =
      let rest : End = after_round (run ticks) s (round tick s h) in
      if ltb s.finalized_block_num end_block_num && not tick.stop
      then rest
      else record { ending = returned 0 0; block_num = s.finalized_block_num; history = h }
