-- ===== src/Ethereum/Runloop/Ends.antt =====
-- When the loop of the Ethereum runner ends, and its statistics.
use monad_fork.Node.Ending.{running, returned, End}
use monad_fork.Prelude.{
  ◌≤◌, false, All, not, leb, Bool-cases, length, u64_max, List, Bool, Option, ℕ, ◌+◌, ◌<◌, ◌≡◌,
  refl, ◌≢◌, inl, inr, ◌&&◌, [], ◌∷◌, arith,
}
use monad_fork.Ethereum.Runloop.{start, runloop_ethereum, round, Loop, finish, after_round, loop}
use monad_fork.Ethereum.Runloop.Laws.{round-block_num}
use monad_fork.Node.Outcome.{ok, err, abort, Outcome}
use monad_fork.Node.Externals.{History, Externals}
use monad_fork.Node.Block.{Block}

module _ (ext : Externals) (block_db : ℕ → Option Block) (end_block_num : ℕ) (tracing : Bool) where
  after_round-ends :
      (go_on : Loop → History → End) (s : Loop) (h : History) (o : Outcome Loop) (h' : History)
      → ((s' : Loop) (h' : History)
          → s'.block_num ≡ s.block_num + 1
          → (go_on s' h').ending ≢ running)
      → s.block_num < u64_max
      → round ext block_db end_block_num tracing s h ≡ (o, h')
      → (after_round go_on s (o, h')).ending ≢ running
  unfolding after_round
  after_round-ends go_on s h (ok s') h' ih small e =
      ih s' h' (round-block_num ext block_db end_block_num tracing s s' h h' e small)
  after_round-ends go_on s h (err x) h' ih small e = λ p. cc
  after_round-ends go_on s h abort h' ih small e = λ p. cc

  loop-ends :
      (stops : List Bool) (s : Loop) (h : History)
      → end_block_num < u64_max
      → end_block_num < length stops + s.block_num
      → (loop ext block_db end_block_num tracing stops s h).ending ≢ running
  unfolding loop finish
  loop-ends [] s h small enough = ground arith
  loop-ends (stop ∷ stops) s h small enough =
      elim (Bool-cases (leb s.block_num end_block_num && not stop)) [
        | inr e ↦ rw e (λ p. cc)
        | inl e ↦ rw e (
            after_round-ends (loop ext block_db end_block_num tracing stops) s h _ _
              (λ s' h' p. loop-ends stops s' h' small (omega arith)) (ground arith) refl)
      ]

  -- With one reading of `stop` for each block from the first to the last, the run ends: it returns,
  -- fails or aborts.
  pub runloop_ends :
      (block_num : ℕ) (stops : List Bool) (h : History)
      → end_block_num < u64_max
      → end_block_num < length stops + block_num
      → (runloop_ethereum ext block_db end_block_num tracing block_num stops h).ending ≢ running
  unfolding runloop_ethereum
  runloop_ends block_num stops h small enough = loop-ends stops (start block_num) h small enough

  -- `stop` was not read as set.
  abbrev pub NoStop : List Bool → Type 0
  NoStop stops = All (λ b. b ≡ false) stops

  after_round-reaches :
      (go_on : Loop → History → End) (s : Loop) (h : History) (o : Outcome Loop) (h' : History)
      (ntxs gas : ℕ)
      → ((s' : Loop) (h' : History)
          → s'.block_num ≡ s.block_num + 1
          → (go_on s' h').ending ≡ returned ntxs gas
          → (go_on s' h').block_num ≡ end_block_num + 1)
      → s.block_num < u64_max
      → round ext block_db end_block_num tracing s h ≡ (o, h')
      → (after_round go_on s (o, h')).ending ≡ returned ntxs gas
      → (after_round go_on s (o, h')).block_num ≡ end_block_num + 1
  unfolding after_round
  after_round-reaches go_on s h (ok s') h' ntxs gas ih small e =
      ih s' h' (round-block_num ext block_db end_block_num tracing s s' h h' e small)
  after_round-reaches go_on s h (err x) h' ntxs gas ih small e = λ p. cc
  after_round-reaches go_on s h abort h' ntxs gas ih small e = λ p. cc

  loop-reaches :
      (stops : List Bool) (s : Loop) (h : History) (ntxs gas : ℕ)
      → end_block_num < u64_max
      → s.block_num ≤ end_block_num + 1
      → NoStop stops
      → (loop ext block_db end_block_num tracing stops s h).ending ≡ returned ntxs gas
      → (loop ext block_db end_block_num tracing stops s h).block_num ≡ end_block_num + 1
  unfolding loop finish
  loop-reaches [] s h ntxs gas small below calm = ground arith
  loop-reaches (stop ∷ stops) s h ntxs gas small below calm =
      elim (Bool-cases (leb s.block_num end_block_num && not stop)) [
        | inr e ↦ rw e (λ _. ground arith)
        | inl e ↦ rw e (
            after_round-reaches (loop ext block_db end_block_num tracing stops) s h _ _ ntxs gas
              (λ s' h' p. loop-reaches stops s' h' ntxs gas small (ground arith) calm.1)
              (ground arith) refl)
      ]

  -- A run that returns without having read a set `stop` has gone through all its blocks: it leaves
  -- `block_num` just behind the last one.
  pub runloop_reaches :
      (block_num : ℕ) (stops : List Bool) (h : History) (ntxs gas : ℕ)
      → end_block_num < u64_max
      → block_num ≤ end_block_num + 1
      → NoStop stops
      → (runloop_ethereum ext block_db end_block_num tracing block_num stops h).ending
        ≡ returned ntxs gas
      → (runloop_ethereum ext block_db end_block_num tracing block_num stops h).block_num
        ≡ end_block_num + 1
  unfolding runloop_ethereum
  runloop_reaches block_num stops h ntxs gas small below calm =
      loop-reaches stops (start block_num) h ntxs gas small below calm
