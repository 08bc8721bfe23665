-- ===== src/Monad/Context/Lasting.antt =====
-- What a round of runloop_monad relies on and leaves behind.
use monad_fork.Prelude.{
  true, ◌+◌, ◌<◌, ◌≡◌, ◌∙◌, inl, inr, some, arith, ℕ, sym, subst, subst₂, Bool, List, List-cases,
  u64_max, All, ap,
}
use monad_fork.Monad.Context.Kept.{IsNumberedBy, CountsExecuted, Keeps, Keeps-IsReady}
use monad_fork.Monad.Context.Present.{IsNumbered, ids, aborts, Lives, keys}
use monad_fork.Monad.Cache.{erase_old, BlockCache}
use monad_fork.Monad.Context.Sustained.{newest-rev_onto, last_or-ascending, prune_lem, work_parts}
use monad_fork.Monad.Context.Finals.{visited-KnowsFinal, visited-Contains}
use monad_fork.Node.Outcome.{Outcome, ok}
use monad_fork.Monad.Finalize.Laws.{last_or, blocks, finalize_all_lem}
use monad_fork.Monad.Finalize.{prune, back, execute_all}
use monad_fork.Node.Externals.{History, Externals}
use monad_fork.Ledger.{Codec}
use monad_fork.Monad.Runloop.{work, Node}
use monad_fork.Monad.Context.Folded.{executed}
use monad_fork.Ledger.Range.{seqnos}
use monad_fork.Monad.Context.{RecoversAll, Contents}
use monad_fork.Monad.Reading.{Pending, Tick, read_ledger}
use monad_fork.Monad.Reading.Laws.{read_ledger-ascending}
use monad_fork.Monad.Context.Pruned.{Contains, Grows, execute_all-Keeps, erase_old-Keeps}
use monad_fork.Monad.Context.Cached.{IsFaithful}
use monad_fork.Monad.Context.Found.{IsTick, read_ledger-IsLinked, read_ledger-visited}
use monad_fork.Monad.Context.Listed.{read_ledger-IsListed}
use monad_fork.Monad.Context.Executed.{work-IsFaithful}
use monad_fork.Monad.Context.Readied.{IsFinalChain, IsReady}
use monad_fork.Monad.Context.Handled.{IsListed}
use monad_fork.Monad.Context.Ready.{MeetsBad, execute_all-MeetsBad}
use monad_fork.Monad.Runloop.Progress.{Tracks}
use monad_fork.Monad.Runloop.Laws.{newest}
use monad_fork.Node.Views.{committed, Outcome-cases, finalized_numbers}

module _ (ext : Externals) (codec : Codec) (ledger : Contents) (final : ℕ → ℕ)
    (numbered : IsNumbered ledger) (finals : IsFinalChain ledger final)
    (fuel end_block_num start_block_num : ℕ) (tracing : Bool) (first : ℕ)
    (recovers : RecoversAll ext) (lives : Lives ext) (counts : CountsExecuted ext)
    (tracks : Tracks ext first) (bounded : end_block_num < u64_max) where
  -- Between two rounds.
  abbrev pub Holds : Node → History → Type 0
  Holds s h =
      IsFaithful ext ledger s.block_cache
      × Keeps ledger final (ext.latest_finalized_version h) (ids (committed h)) s.block_cache
      × (ext.latest_finalized_version h < u64_max)
      × IsNumberedBy ledger (committed h)

  module _ (tick : Tick) (good : IsTick codec ledger final tick) (s : Node) (p : Pending)
      (h : History) (holds : Holds s h)
      (found : read_ledger ext codec fuel end_block_num tick h ≡ some (ok p)) where
    abbrev was_final : ℕ
    was_final = ext.latest_finalized_version h

    abbrev pub worked : Outcome Node × History
    worked = work ext codec fuel end_block_num start_block_num tracing tick s p h

    is_ready :
        IsReady ext codec ledger final numbered finals fuel end_block_num h (keys s.block_cache)
    is_ready =
        Keeps-IsReady ext codec ledger final numbered finals fuel end_block_num counts h
          s.block_cache holds.2 holds.1 holds.3

    are-IsListed : All (IsListed ledger) p.to_execute
    are-IsListed = read_ledger-IsListed ext codec ledger fuel end_block_num tick good.0 h p found

    -- The loop over to_execute of this round meets a bad block.
    abbrev pub BadAt : Type 0
    BadAt =
        MeetsBad ext codec tick.at_execute.bodies start_block_num tracing was_final p.to_execute
          s.block_cache h

    pub work-BadAt : aborts worked.0 ≡ true → BadAt
    unfolding work
    work-BadAt e =
        let executed_all : Outcome BlockCache × History =
          execute_all ext codec tick.at_execute.bodies start_block_num tracing was_final
            p.to_execute s.block_cache h in
        let linked =
          read_ledger-IsLinked ext codec ledger final numbered finals fuel end_block_num tick good h
            (keys s.block_cache) is_ready p found in
        let bad : aborts executed_all.0 ≡ true → BadAt =
          execute_all-MeetsBad ext codec ledger tick.at_execute.bodies start_block_num tracing
            recovers good.0.2.1 lives was_final p.to_execute s.block_cache h are-IsListed holds.0
            linked in
        elim (Outcome-cases executed_all.0) [
          | inr q ↦ bad (ground arith)
          | inl (cache, q) ↦ absurd (
              ground
                (arith, finalize_all_lem ext p.to_finalize s.finalized_block_num executed_all.1))
        ]

    now_final :
        (s' : Node)
        → worked.0 ≡ ok s'
        → ext.latest_finalized_version worked.1 ≡ last_or was_final (blocks p.to_finalize)
    now_final s' e =
        let (cache, q, pruned, stored, numbers) =
          work_parts ext codec fuel end_block_num start_block_num tracing tick s p h s' e in
        tracks worked.1
        ∙ ap (newest first) numbers
        ∙ newest-rev_onto first (blocks p.to_finalize) (finalized_numbers h)
        ∙ ap (λ x. last_or x (blocks p.to_finalize)) (sym (tracks h))

    now_bounded : (s' : Node) → worked.0 ≡ ok s' → ext.latest_finalized_version worked.1 < u64_max
    now_bounded s' e =
        let (k, listed, bound) =
          read_ledger-ascending ext codec fuel end_block_num tick h p good.1
            (omega (arith, bounded)) found in
        let now : ext.latest_finalized_version worked.1 ≡ was_final + k =
          now_final s' e ∙ ap (last_or was_final) listed ∙ last_or-ascending k was_final in
        omega (arith, now, bound, bounded, holds.2)

    -- The cache before it is pruned.
    pruned-Keeps :
        (cache : BlockCache) (executed_ids : List ℕ)
        → Keeps ledger final was_final executed_ids cache
        → Grows (keys s.block_cache) (keys cache)
        → Contains (keys cache) p.to_execute
        → Keeps ledger final
            (last_or was_final (blocks p.to_finalize))
            executed_ids
            (prune p.to_finalize cache)
    unfolding prune back
    pruned-Keeps cache executed_ids kept grown has = elim (List-cases p.to_finalize) [
      | inl idle ↦
          let same : prune p.to_finalize cache ≡ cache = ap (λ ts. prune ts cache) idle in
          let still : last_or was_final (blocks p.to_finalize) ≡ was_final =
            ap (λ ts. last_or was_final (blocks ts)) idle in
          subst₂ (λ n c. Keeps ledger final n executed_ids c) (sym still) (sym same) kept
      | inr (t, ts, busy) ↦
          elim (read_ledger-visited ext codec ledger final numbered finals fuel end_block_num tick
            good h (keys s.block_cache) is_ready p found) [
              | inl idle ↦ absurd (ground arith)
              | inr (r, numbers, executes, chain, at) ↦
                  let all_known =
                    visited-Contains ledger final numbered (executed ext h) (keys s.block_cache)
                      (keys cache) (final was_final) (was_final + 1) r is_ready.1 chain grown
                      (subst (Contains (keys cache)) executes has) in
                  let (knows, above) =
                    visited-KnowsFinal ledger final (keys cache) (final was_final) was_final r
                      kept.2 chain at all_known in
                  let n = last_or was_final (seqnos r) in
                  let same : last_or was_final (blocks p.to_finalize) ≡ n =
                    ap (last_or was_final) numbers in
                  let erased : prune p.to_finalize cache ≡ erase_old n cache =
                    ap (λ x. prune x cache) busy
                    ∙ prune_lem t ts was_final cache
                    ∙ ap (λ x. erase_old (last_or was_final (blocks x)) cache) (sym busy)
                    ∙ ap (λ x. erase_old x cache) same in
                  subst₂ (λ m c. Keeps ledger final m executed_ids c) (sym same) (sym erased)
                    (erase_old-Keeps ledger n final finals was_final executed_ids cache above knows
                      kept)
            ]
    ]

    pub work-Holds : (s' : Node) → worked.0 ≡ ok s' → Holds s' worked.1
    work-Holds s' e =
        let (cache, q, pruned, stored, numbers) =
          work_parts ext codec fuel end_block_num start_block_num tracing tick s p h s' e in
        let (kept, grown, has, stored_) =
          execute_all-Keeps ext codec ledger final numbered tick.at_execute.bodies start_block_num
            tracing was_final p.to_execute s.block_cache h cache are-IsListed holds.1 holds.3 q in
        let executed_all : Outcome BlockCache × History =
          execute_all ext codec tick.at_execute.bodies start_block_num tracing was_final
            p.to_execute s.block_cache h in
        let i = ids (committed executed_all.1) in
        let after = pruned-Keeps cache i kept grown has in
        let now = now_final s' e in
        (
          work-IsFaithful ext codec ledger recovers fuel end_block_num start_block_num tracing tick
              s p h good.0.2.1 are-IsListed holds.0 s' e,
          subst₂ (λ n j. Keeps ledger final n j s'.block_cache) (sym now) (sym (ap ids stored))
              (subst (λ c. Keeps ledger final (last_or was_final (blocks p.to_finalize)) i c)
                (sym pruned) after),
          now_bounded s' e,
          subst (IsNumberedBy ledger) (sym stored) stored_,
        )
