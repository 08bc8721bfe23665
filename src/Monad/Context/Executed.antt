-- ===== src/Monad/Context/Executed.antt =====
-- What a round does with what it has read: the loops over to_execute and to_finalize, and the pruning
-- of the block cache.
use monad_fork.Node.Outcome.{Outcome, ok}
use monad_fork.Monad.Cache.{BlockCache}
use monad_fork.Node.Externals.{History, Externals}
use monad_fork.Monad.Context.{executions, RecoversAll, Contents}
use monad_fork.Monad.Finalize.{prune, back, finalize_one, finalize_all, execute_all}
use monad_fork.Prelude.{
  ◌≡◌, refl, inl, inr, [], ◌∷◌, arith, ℕ, subst, Bool, Option, List, Option-cases, All,
}
use monad_fork.Ledger.{Codec}
use monad_fork.Monad.Runloop.{work, Node}
use monad_fork.Monad.Reading.{ToExecute, ToFinalize, Pending, Tick}
use monad_fork.Monad.Handle.{handle_to_execute}
use monad_fork.Monad.Finalize.Laws.{finalize_all_lem}
use monad_fork.Monad.Context.Cached.{IsFaithful, erase_old-IsFaithful}
use monad_fork.Monad.Context.Handled.{HasBodies, IsListed, handle-AllContexts, handle-IsFaithful}
use monad_fork.Monad.Context.Proposed.{AllContexts}
use monad_fork.Node.Views.{Outcome-cases}
use monad_fork.Node.Block.{Bytes}

module _ (ext : Externals) where
  finalize_one-executions :
      (t : ToFinalize) (h : History)
      → (executions (finalize_one ext t h).1 ≡ executions h) × ((finalize_one ext t h).0 ≡ ok tt)
  unfolding finalize_one executions
  finalize_one-executions t h = (ground arith, ground arith)

  finalize_all-executions :
      (ts : List ToFinalize) (n : ℕ) (h : History)
      → executions (finalize_all ext ts n h).1 ≡ executions h
  unfolding finalize_all
  finalize_all-executions [] n h = refl
  finalize_all-executions (t ∷ rest) n h =
      let one = finalize_one-executions t h in
      let more = finalize_all-executions rest t.block (finalize_one ext t h).1 in
      ground (arith, one, more)

module _ (ext : Externals) (codec : Codec) (ledger : Contents) (recovers : RecoversAll ext) where
  module _ (bodies : ℕ → Option Bytes) (has : HasBodies codec ledger bodies) (start_block_num : ℕ)
      (tracing : Bool) (last_finalized : ℕ) where
    abbrev executed_list : List ToExecute → BlockCache → History → Outcome BlockCache × History
    executed_list l cache h =
        execute_all ext codec bodies start_block_num tracing last_finalized l cache h

    abbrev one_executed : ToExecute → BlockCache → History → Outcome BlockCache × History
    one_executed (id, header) cache h =
        handle_to_execute ext codec bodies start_block_num tracing last_finalized id header cache h

    executed_list-AllContexts :
        (l : List ToExecute) (cache : BlockCache) (h : History)
        → All (IsListed ledger) l
        → IsFaithful ext ledger cache
        → AllContexts ext ledger h
        → AllContexts ext ledger (executed_list l cache h).1
    unfolding execute_all
    executed_list-AllContexts [] cache h listed faithful good = good
    executed_list-AllContexts ((id, header) ∷ rest) cache h (first, listed) faithful good =
        let done : Outcome BlockCache × History = one_executed (id, header) cache h in
        let kept =
          handle-AllContexts ext codec ledger bodies start_block_num tracing recovers has id header
            cache first faithful last_finalized h good in
        elim (Outcome-cases done.0) [
          | inr bad ↦
              let same : (executed_list ((id, header) ∷ rest) cache h).1 ≡ done.1 = ground arith in
              rw same kept
          | inl (cache', e) ↦
              let same : (executed_list ((id, header) ∷ rest) cache h).1
                  ≡ (executed_list rest cache' done.1).1 =
                ground arith in
              let faithful' =
                handle-IsFaithful ext codec ledger bodies start_block_num tracing recovers has id
                  header cache first faithful last_finalized h cache' e in
              rw same (executed_list-AllContexts rest cache' done.1 listed faithful' kept)
        ]

    executed_list-IsFaithful :
        (l : List ToExecute) (cache : BlockCache) (h : History) (cache' : BlockCache)
        → All (IsListed ledger) l
        → IsFaithful ext ledger cache
        → (executed_list l cache h).0 ≡ ok cache'
        → IsFaithful ext ledger cache'
    unfolding execute_all
    executed_list-IsFaithful [] cache h cache' listed faithful e =
        subst (IsFaithful ext ledger) (ground arith) faithful
    executed_list-IsFaithful ((id, header) ∷ rest) cache h cache' (first, listed) faithful e =
        let done : Outcome BlockCache × History = one_executed (id, header) cache h in
        elim (Outcome-cases done.0) [
          | inr bad ↦ absurd (ground arith)
          | inl (mid, q) ↦
              let faithful' =
                handle-IsFaithful ext codec ledger bodies start_block_num tracing recovers has id
                  header cache first faithful last_finalized h mid q in
              executed_list-IsFaithful rest mid done.1 cache' listed faithful' (ground arith)
        ]

  prune-IsFaithful :
      (ts : List ToFinalize) (cache : BlockCache)
      → IsFaithful ext ledger cache
      → IsFaithful ext ledger (prune ts cache)
  unfolding prune
  prune-IsFaithful ts cache faithful = elim (Option-cases (back ts)) [
    | inl e ↦ rw (e, prune) faithful
    | inr (t, e) ↦ rw (e, prune) (erase_old-IsFaithful ext ledger t.block cache faithful)
  ]

  module _ (fuel end_block_num start_block_num : ℕ) (tracing : Bool) (tick : Tick) (s : Node)
      (p : Pending) (h : History) (has : HasBodies codec ledger tick.at_execute.bodies)
      (listed : All (IsListed ledger) p.to_execute)
      (faithful : IsFaithful ext ledger s.block_cache) where
    abbrev worked : Outcome Node × History
    worked = work ext codec fuel end_block_num start_block_num tracing tick s p h

    abbrev executed : Outcome BlockCache × History
    executed =
        execute_all ext codec tick.at_execute.bodies start_block_num tracing
          (ext.latest_finalized_version h) p.to_execute s.block_cache h

    pub work-AllContexts : AllContexts ext ledger h → AllContexts ext ledger worked.1
    unfolding work
    work-AllContexts good =
        let kept =
          executed_list-AllContexts tick.at_execute.bodies has start_block_num tracing
            (ext.latest_finalized_version h) p.to_execute s.block_cache h listed faithful good in
        elim (Outcome-cases executed.0) [
          | inr bad ↦ let same : worked.1 ≡ executed.1 = ground arith in rw same kept
          | inl (cache, e) ↦
              let quiet =
                finalize_all-executions ext p.to_finalize s.finalized_block_num executed.1 in
              let ends = finalize_all_lem ext p.to_finalize s.finalized_block_num executed.1 in
              let same : executions worked.1 ≡ executions executed.1 =
                ground (arith, quiet, ends) in
              rw same kept
        ]

    pub work-IsFaithful : (s' : Node) → worked.0 ≡ ok s' → IsFaithful ext ledger s'.block_cache
    unfolding work
    work-IsFaithful s' e = elim (Outcome-cases executed.0) [
      | inr bad ↦ absurd (ground arith)
      | inl (cache, q) ↦
          let ends = finalize_all_lem ext p.to_finalize s.finalized_block_num executed.1 in
          let same : prune p.to_finalize cache ≡ s'.block_cache = ground (arith, ends) in
          let kept =
            executed_list-IsFaithful tick.at_execute.bodies has start_block_num tracing
              (ext.latest_finalized_version h) p.to_execute s.block_cache h cache listed faithful
              q in
          subst (IsFaithful ext ledger) same (prune-IsFaithful p.to_finalize cache kept)
    ]
