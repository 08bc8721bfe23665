-- ===== src/Monad/Context/Sustained.antt =====
-- The effects of a round of runloop_monad on the history and on the cache.
use monad_fork.Prelude.{zero, suc, ◌+◌, ◌≡◌, refl, inl, inr, [], ◌∷◌, arith, ℕ, Bool, List}
use monad_fork.Ledger.{Codec}
use monad_fork.Monad.Runloop.{work, Node}
use monad_fork.Ledger.Range.{ascending}
use monad_fork.Monad.Reading.{ToFinalize, Pending, Tick}
use monad_fork.Monad.Finalize.{back, finalize_one, finalize_all, execute_all, prune}
use monad_fork.Monad.Cache.{BlockCache, erase_old}
use monad_fork.Monad.Finalize.Laws.{blocks, rev_onto, last_or, finalize_all_lem}
use monad_fork.Monad.Runloop.Progress.{execute_all-finalized_numbers}
use monad_fork.Monad.Runloop.Laws.{newest}
use monad_fork.Node.Views.{committed, Outcome-cases, finalized_numbers}
use monad_fork.Node.Externals.{History, Externals}
use monad_fork.Node.Outcome.{Outcome, ok}

pub newest-rev_onto :
    (first : ℕ) (l acc : List ℕ) → newest first (rev_onto l acc) ≡ last_or (newest first acc) l
newest-rev_onto first [] acc = refl
newest-rev_onto first (n ∷ l) acc = newest-rev_onto first l (n ∷ acc)

pub last_or-ascending : (k m : ℕ) → last_or m (ascending k (m + 1)) ≡ m + k
last_or-ascending zero m = omega arith
last_or-ascending (suc k) m = omega (arith, last_or-ascending k (m + 1))

pub prune_lem :
    (t : ToFinalize) (ts : List ToFinalize) (m : ℕ) (cache : BlockCache)
    → prune (t ∷ ts) cache ≡ erase_old (last_or m (blocks (t ∷ ts))) cache
unfolding prune back
prune_lem t [] m cache = refl
prune_lem t (t' ∷ ts) m cache = prune_lem t' ts t.block cache

module _ (ext : Externals) where
  finalize_one-committed :
      (t : ToFinalize) (h : History)
      → (committed (finalize_one ext t h).1 ≡ committed h) × ((finalize_one ext t h).0 ≡ ok tt)
  unfolding finalize_one committed
  finalize_one-committed t h = (ground arith, ground arith)

  finalize_all-committed :
      (ts : List ToFinalize) (n : ℕ) (h : History)
      → committed (finalize_all ext ts n h).1 ≡ committed h
  unfolding finalize_all
  finalize_all-committed [] n h = refl
  finalize_all-committed (t ∷ rest) n h =
      let one = finalize_one-committed t h in
      let more = finalize_all-committed rest t.block (finalize_one ext t h).1 in
      ground (arith, one, more)

module _ (ext : Externals) (codec : Codec) (fuel end_block_num start_block_num : ℕ) (tracing : Bool)
    (tick : Tick) (s : Node) (p : Pending) (h : History) (s' : Node) where
  abbrev worked : Outcome Node × History
  worked = work ext codec fuel end_block_num start_block_num tracing tick s p h

  abbrev executed_all : Outcome BlockCache × History
  executed_all =
      execute_all ext codec tick.at_execute.bodies start_block_num tracing
        (ext.latest_finalized_version h) p.to_execute s.block_cache h

  -- A round that succeeds, by its parts.
  pub work_parts :
      worked.0 ≡ ok s'
      → (cache : BlockCache) × (executed_all.0 ≡ ok cache)
        × (s'.block_cache ≡ prune p.to_finalize cache)
        × (committed worked.1 ≡ committed executed_all.1)
        × (finalized_numbers worked.1 ≡ rev_onto (blocks p.to_finalize) (finalized_numbers h))
  unfolding work
  work_parts e = elim (Outcome-cases executed_all.0) [
    | inr bad ↦ absurd (ground arith)
    | inl (cache, q) ↦
        let ends = finalize_all_lem ext p.to_finalize s.finalized_block_num executed_all.1 in
        let quiet = finalize_all-committed ext p.to_finalize s.finalized_block_num executed_all.1 in
        let same =
          execute_all-finalized_numbers ext codec fuel end_block_num start_block_num tracing
            tick.at_execute.bodies (ext.latest_finalized_version h) p.to_execute s.block_cache h in
        (cache, q, ground (arith, ends), ground (arith, ends, quiet), ground (arith, ends, same))
  ]
