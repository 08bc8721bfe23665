-- ===== src/Ethereum/Runloop/Laws.antt =====
-- The blocks that the loop finalizes, and when it ends.
use monad_fork.Prelude.{
  min, length, not, leb, Bool-cases, refl, ◌∙◌, ◌&&◌, [], Option-cases, u64_max, Bool, List, Option,
  ℕ, zero, suc, ◌+◌, ◌-◌, ◌≤◌, ◌<◌, ◌≡◌, inl, inr, some, ◌∷◌, arith, if◌then◌else◌,
}
use monad_fork.Node.Ending.{Ending, End}
use monad_fork.Node.Outcome.{abort, err, Outcome, ok}
use monad_fork.Ethereum.Runloop.{start, after_round, runloop_ethereum, finish, loop, Loop, round}
use monad_fork.Ethereum.Laws.{process_atomic}
use monad_fork.Node.Views.{is_ok, finalized}
use monad_fork.Node.Externals.{History, Externals}
use monad_fork.Node.Block.{Block}

-- The pairs (a, a), (a + 1, a + 1), ... of the next `k` numbers, in front of those at hand.
abbrev pub count_up : ℕ → ℕ → List (ℕ × ℕ) → List (ℕ × ℕ)
count_up zero a acc = acc
count_up (suc k) a acc = count_up k (a + 1) ((a, a) ∷ acc)

count_up_step :
    (m n : ℕ) (acc : List (ℕ × ℕ))
    → n + 1 ≤ m
    → count_up (m - (n + 1)) (n + 1) ((n, n) ∷ acc) ≡ count_up (m - n) n acc
count_up_step m n acc h = let e : m - n ≡ suc (m - (n + 1)) = omega arith in rw e

abbrev pub NamesByNumber : (ℕ → Option Block) → Type 0
NamesByNumber block_db = (n : ℕ) (b : Block) → block_db n ≡ some b → b.header.number ≡ n

module _ (ext : Externals) (block_db : ℕ → Option Block) (end_block_num : ℕ) (tracing : Bool) where
  abbrev pub a_round : Loop → History → Outcome Loop × History
  a_round s h = round ext block_db end_block_num tracing s h

  -- The block that a round processes is finalized exactly if the round succeeds.
  round-finalized :
      (s : Loop) (h : History)
      → NamesByNumber block_db
      → finalized (a_round s h).1
        ≡ (if is_ok (a_round s h).0 then (s.block_num, s.block_num) ∷ finalized h else finalized h)
  unfolding round finalized
  round-finalized s h named = elim (Option-cases (block_db s.block_num)) [
    | inl e ↦ ground arith
    | inr (b, e) ↦ ground (
      arith,
      named s.block_num b e,
      process_atomic ext (ext.get_revision b.header.number b.header.timestamp) b b.header.number
          s.parent_block_id tracing h,
    )
  ]

  pub round-block_num :
      (s s' : Loop) (h h' : History)
      → a_round s h ≡ (ok s', h')
      → s.block_num < u64_max
      → s'.block_num ≡ s.block_num + 1
  unfolding round
  round-block_num s s' h h' e lt = ground arith

  abbrev pub run : List Bool → Loop → History → End
  run stops s h = loop ext block_db end_block_num tracing stops s h

  -- What the loop leaves, from the state before it.
  record Progress (s : Loop) (h : History) (r : End) : Type 0 where
    pub grows : s.block_num ≤ r.block_num
    pub within : r.block_num - s.block_num ≤ end_block_num + 1 - s.block_num
    pub done : finalized r.history ≡ count_up (r.block_num - s.block_num) s.block_num (finalized h)

  at_once :
      (s : Loop) (h h' : History) (e : Ending)
      → finalized h' ≡ finalized h
      → Progress s h (record { ending = e; block_num = s.block_num; history = h' })
  at_once s h h' e p =
      let z : s.block_num - s.block_num ≡ 0 = omega arith in
      record { grows = omega arith; within = omega arith; done = rw z p }

  finish-Progress :
      (s : Loop) (h : History) → Progress s h (finish ext block_db end_block_num tracing s h)
  unfolding finish finalized
  finish-Progress s h = at_once s h _ _ (ground arith)

  later :
      (s s' : Loop) (h h' : History) (r : End)
      → s.block_num ≤ end_block_num
      → s'.block_num ≡ s.block_num + 1
      → finalized h' ≡ (s.block_num, s.block_num) ∷ finalized h
      → Progress s' h' r
      → Progress s h r
  later s s' h h' r le e f p = record {
    grows = omega (arith, p.grows);
    within = omega (arith, p.within, p.grows, e);
    done =
        p.done
        ∙ rw (e, f) (count_up_step r.block_num s.block_num (finalized h) (omega (arith, p.grows)));
  }

  after_round-Progress :
      (go_on : Loop → History → End) (s : Loop) (h : History) (o : Outcome Loop) (h' : History)
      → ((s' : Loop) (h' : History) → s'.block_num ≡ s.block_num + 1 → Progress s' h' (go_on s' h'))
      → NamesByNumber block_db
      → s.block_num ≤ end_block_num
      → s.block_num < u64_max
      → a_round s h ≡ (o, h')
      → Progress s h (after_round go_on s (o, h'))
  unfolding after_round
  after_round-Progress go_on s h (ok s') h' ih named le small e =
      later s s' h h' _ le (round-block_num s s' h h' e small)
        (ground (arith, e, round-finalized s h named))
        (ih s' h' (round-block_num s s' h h' e small))
  after_round-Progress go_on s h (err x) h' ih named le small e =
      at_once s h h' _ (ground (arith, e, round-finalized s h named))
  after_round-Progress go_on s h abort h' ih named le small e =
      at_once s h h' _ (ground (arith, e, round-finalized s h named))

  loop-Progress :
      (stops : List Bool) (s : Loop) (h : History)
      → NamesByNumber block_db
      → min end_block_num (s.block_num + length stops) < u64_max
      → Progress s h (run stops s h)
  unfolding loop
  loop-Progress [] s h named small = elim (Bool-cases (leb s.block_num end_block_num)) [
    | inl e ↦ rw e (at_once s h h _ refl)
    | inr e ↦ rw e (finish-Progress s h)
  ]
  loop-Progress (stop ∷ stops) s h named small =
      elim (Bool-cases (leb s.block_num end_block_num && not stop)) [
        | inr e ↦ rw e (finish-Progress s h)
        | inl e ↦ rw e (
            after_round-Progress (run stops) s h (a_round s h).0 (a_round s h).1
              (λ s' h' next_. loop-Progress stops s' h' named (omega (arith, next_))) named
              (ground arith) (ground arith) refl)
      ]

  -- Where the run does not come to the largest number, by its end or by its rounds, it has finalized the blocks from the first one
  -- up to just before the `block_num` that it leaves, each once and in order, however it ended: on
  -- return, on an error, on an abort, and while it is still running.
  pub runloop_finalizes :
      (block_num : ℕ) (stops : List Bool) (h : History)
      → NamesByNumber block_db
      → min end_block_num (block_num + length stops) < u64_max
      → let r = runloop_ethereum ext block_db end_block_num tracing block_num stops h in
        (block_num ≤ r.block_num)
        × (finalized r.history ≡ count_up (r.block_num - block_num) block_num (finalized h))
  unfolding runloop_ethereum
  runloop_finalizes block_num stops h named small =
      let p = loop-Progress stops (start block_num) h named small in (p.grows, p.done)

  -- The same as a number of blocks, none of which lies beyond the end.
  pub runloop_range :
      (block_num : ℕ) (stops : List Bool) (h : History)
      → NamesByNumber block_db
      → min end_block_num (block_num + length stops) < u64_max
      → (k : ℕ) × (finalized
            (runloop_ethereum ext block_db end_block_num tracing block_num stops h).history
          ≡ count_up k block_num (finalized h))
        × (k ≤ end_block_num + 1 - block_num)
  unfolding runloop_ethereum
  runloop_range block_num stops h named small =
      let p = loop-Progress stops (start block_num) h named small in
      (
        (runloop_ethereum ext block_db end_block_num tracing block_num stops h).block_num
            - block_num,
        p.done,
        p.within,
      )
