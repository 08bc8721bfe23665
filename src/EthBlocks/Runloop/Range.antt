-- ===== src/EthBlocks/Runloop/Range.antt =====
-- The blocks that the loop finalizes.
use monad_fork.Prelude.{
  min, length, ◌-◌, suc, ◌+◌, ◌≤◌, ◌<◌, ◌≡◌, refl, ◌∙◌, inl, inr, ◌&&◌, [], ◌∷◌, arith,
  if◌then◌else◌, Bool, not, Option, List, leb, Bool-cases, Option-cases, u64_max, ℕ,
}
use monad_fork.Ethereum.Runloop.{start, finish}
use monad_fork.EthBlocks.Runloop.{
  after_round, round, loop, Sets, after_block, enter, runloop_monad_ethblocks,
}
use monad_fork.Ethereum.Runloop.Laws.{count_up, NamesByNumber}
use monad_fork.EthBlocks.Warm.{warm_sets}
use monad_fork.EthBlocks.Laws.{process_monad_atomic}
use monad_fork.Node.Views.{finalized, is_ok}
use monad_fork.Node.Externals.{History, Externals}
use monad_fork.Node.Outcome.{Outcome, ok, err, abort}
use monad_fork.Node.Ending.{End}
use monad_fork.Node.Block.{Block, AddressSet}

module _ (ext : Externals) (block_db : ℕ → Option Block) (end_block_num : ℕ) (tracing : Bool) where
  abbrev a_round : Sets → History → Outcome Sets × History
  a_round s h = round ext block_db end_block_num tracing s h

  -- The block that a round processes is finalized exactly if the round succeeds.
  round-finalized :
      (s : Sets) (h : History)
      → NamesByNumber block_db
      → finalized (a_round s h).1 ≡ (
          if is_ok (a_round s h).0
          then (s.counters.block_num, s.counters.block_num) ∷ finalized h
          else finalized h)
  unfolding round after_block finalized
  round-finalized s h named = elim (Option-cases (block_db s.counters.block_num)) [
    | inl e ↦ ground arith
    | inr (b, e) ↦ ground (
      arith,
      named s.counters.block_num b e,
      process_monad_atomic ext (ext.get_monad_revision b.header.timestamp) b b.header.number
          s.counters.parent_block_id tracing s.grandparent_set s.parent_set h,
    )
  ]

  round-block_num :
      (s s' : Sets) (h h' : History)
      → a_round s h ≡ (ok s', h')
      → s.counters.block_num < u64_max
      → s'.counters.block_num ≡ s.counters.block_num + 1
  unfolding round after_block
  round-block_num s s' h h' e lt = ground arith

  -- Some of the next blocks were finalized, and where the loop has returned, all up to the number
  -- that it leaves.
  record Progress (s : Sets) (h : History) (r : End) : Type 0 where
    pub count : ℕ
    pub done : finalized r.history ≡ count_up count s.counters.block_num (finalized h)
    pub bound : count ≤ end_block_num + 1 - s.counters.block_num

  at_once : (s : Sets) (h : History) (r : End) → finalized r.history ≡ finalized h → Progress s h r
  at_once s h r p = record { count = 0; done = p; bound = omega arith }

  later :
      (s s' : Sets) (h h' : History) (r : End)
      → s.counters.block_num ≤ end_block_num
      → s'.counters.block_num ≡ s.counters.block_num + 1
      → finalized h' ≡ (s.counters.block_num, s.counters.block_num) ∷ finalized h
      → Progress s' h' r
      → Progress s h r
  later s s' h h' r le e f p = record {
    count = suc p.count;
    done = p.done ∙ rw (e, f) refl;
    bound = omega (arith, p.bound, e);
  }

  after_round-Progress :
      (n : ℕ) (next_round : Sets → History → End) (s : Sets) (h : History) (o : Outcome Sets)
      (h' : History)
      → ((s' : Sets) (h' : History)
          → s'.counters.block_num ≡ s.counters.block_num + 1
          → Progress s' h' (next_round s' h'))
      → NamesByNumber block_db
      → s.counters.block_num ≤ end_block_num
      → s.counters.block_num < u64_max
      → a_round s h ≡ (o, h')
      → Progress s h (after_round n next_round (o, h'))
  unfolding after_round
  after_round-Progress n next_round s h (ok s') h' ih named le small e =
      later s s' h h' _ le (round-block_num s s' h h' e small)
        (ground (arith, e, round-finalized s h named))
        (ih s' h' (round-block_num s s' h h' e small))
  after_round-Progress n next_round s h (err x) h' ih named le small e =
      at_once s h _ (ground (arith, e, round-finalized s h named))
  after_round-Progress n next_round s h abort h' ih named le small e =
      at_once s h _ (ground (arith, e, round-finalized s h named))

  finish-Progress :
      (s : Sets) (h : History)
      → Progress s h (finish ext block_db end_block_num tracing s.counters h)
  unfolding finish finalized
  finish-Progress s h = at_once s h _ (ground arith)

  loop-Progress :
      (n : ℕ) (stops : List Bool) (s : Sets) (h : History)
      → NamesByNumber block_db
      → min end_block_num (s.counters.block_num + length stops) < u64_max
      → Progress s h (loop ext block_db end_block_num tracing n stops s h)
  unfolding loop
  loop-Progress n [] s h named small = elim (Bool-cases (leb s.counters.block_num end_block_num)) [
    | inl e ↦ rw e (at_once s h _ refl)
    | inr e ↦ rw e (finish-Progress s h)
  ]
  loop-Progress n (stop ∷ stops) s h named small =
      elim (Bool-cases (leb s.counters.block_num end_block_num && not stop)) [
        | inr e ↦ rw e (finish-Progress s h)
        | inl e ↦ rw e (
            after_round-Progress n (loop ext block_db end_block_num tracing n stops) s h
              (a_round s h).0 (a_round s h).1
              (λ s' h' next_. loop-Progress n stops s' h' named (omega (arith, next_))) named
              (ground arith) (ground arith) refl)
      ]

  -- The blocks of a run, from what the warm-up gives.
  abbrev Finalizes : ℕ → History → History → Type 0
  Finalizes n h h' =
      (k : ℕ) × (finalized h' ≡ count_up k n (finalized h)) × (k ≤ end_block_num + 1 - n)

  enter-Finalizes :
      (n : ℕ) (stops : List Bool) (h : History)
      (warm : Outcome (Option AddressSet × Option AddressSet))
      → NamesByNumber block_db
      → min end_block_num (n + length stops) < u64_max
      → Finalizes n h (enter ext block_db end_block_num tracing n stops h warm).history
  unfolding enter
  enter-Finalizes n stops h (ok (parent, grandparent)) named small =
      let p =
        loop-Progress n stops
          (record { counters = start n; parent_set = parent; grandparent_set = grandparent }) h
          named small in
      (p.count, p.done, p.bound)
  enter-Finalizes n stops h (err e) named small = (0, refl, omega arith)
  enter-Finalizes n stops h abort named small = (0, refl, omega arith)

  -- Where a run does not come to the largest number, by its end or by its rounds, it finalizes the next blocks from the first one
  -- on, each once and in order, and none beyond the end, however it ends.
  pub runloop_monad_ethblocks_finalizes :
      (block_num : ℕ) (stops : List Bool) (h : History)
      → NamesByNumber block_db
      → min end_block_num (block_num + length stops) < u64_max
      → (k : ℕ) × (finalized
            (runloop_monad_ethblocks ext block_db end_block_num tracing block_num stops h).history
          ≡ count_up k block_num (finalized h))
        × (k ≤ end_block_num + 1 - block_num)
  unfolding runloop_monad_ethblocks
  runloop_monad_ethblocks_finalizes block_num stops h =
      enter-Finalizes block_num stops h (warm_sets ext block_db block_num)
