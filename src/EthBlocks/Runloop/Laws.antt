-- ===== src/EthBlocks/Runloop/Laws.antt =====
-- The sets that the loop carries on are those that a start at its block number would compute.
use monad_fork.EthBlocks.Runloop.{after_block, round, Sets}
use monad_fork.Prelude.{
  ◌+◌, ◌<◌, ◌≡◌, inl, inr, some, arith, ap, Bool, Option, Option-cases, u64_max, ℕ,
}
use monad_fork.EthBlocks.{process_monad_block}
use monad_fork.EthBlocks.Warm.{warm_sets}
use monad_fork.EthBlocks.Laws.{process_monad_set}
use monad_fork.EthBlocks.Warm.Laws.{set_of_block_lem, warm_sets-next}
use monad_fork.Node.Views.{Outcome-cases}
use monad_fork.Node.Externals.{History, Externals}
use monad_fork.Node.Outcome.{Outcome, ok}
use monad_fork.Node.Block.{Block, AddressSet}

module _ (ext : Externals) (block_db : ℕ → Option Block) (end_block_num : ℕ) (tracing : Bool) where
  abbrev a_round : Sets → History → Outcome Sets × History
  a_round s h = round ext block_db end_block_num tracing s h

  after_block-ok :
      (block : Block) (addresses : AddressSet) (s s' : Sets) (h h' : History)
      → after_block ext block_db end_block_num tracing block addresses s h ≡ (ok s', h')
      → s.counters.block_num < u64_max
      → (s'.counters.block_num ≡ s.counters.block_num + 1)
        × (s'.parent_set ≡ some addresses)
        × (s'.grandparent_set ≡ s.parent_set)
  unfolding after_block
  after_block-ok block addresses s s' h h' e small = (ground arith, ground arith, ground arith)

  -- A round that succeeds moves to the next block, and the sets it leaves are those that a start at
  -- that block would compute from the block database, if those it was given were so.
  pub round-warm_sets :
      (s s' : Sets) (h h' : History)
      → 0 < s.counters.block_num
      → s.counters.block_num < u64_max
      → warm_sets ext block_db s.counters.block_num ≡ ok (s.parent_set, s.grandparent_set)
      → a_round s h ≡ (ok s', h')
      → (s'.counters.block_num ≡ s.counters.block_num + 1)
        × (warm_sets ext block_db s'.counters.block_num ≡ ok (s'.parent_set, s'.grandparent_set))
  unfolding round
  round-warm_sets s s' h h' pos small warm e = elim (Option-cases (block_db s.counters.block_num)) [
    | inl p ↦ absurd (ground arith)
    | inr (block, p) ↦
        let rev = ext.get_monad_revision block.header.timestamp in
        let r =
          process_monad_block ext rev block block.header.number s.counters.parent_block_id tracing
            s.grandparent_set s.parent_set h in
        elim (Outcome-cases r.0) [
          | inr bad ↦ absurd (ground arith)
          | inl (addresses, good) ↦
              let (senders, recovered, same) =
                process_monad_set ext rev block block.header.number s.counters.parent_block_id
                  tracing s.grandparent_set s.parent_set h r.1 addresses
                  (ap (λ o. (o, r.1)) good) in
              let last : after_block ext block_db end_block_num tracing block addresses s r.1
                  ≡ (ok s', h') =
                ground arith in
              let moved = after_block-ok block addresses s s' r.1 h' last small in
              let next =
                warm_sets-next ext block_db s.counters.block_num block s.parent_set
                  s.grandparent_set pos p warm in
              let set_ = set_of_block_lem ext block senders recovered in
              (moved.0, cc (moved.0, moved.1, moved.2, next, set_, same))
        ]
  ]
