-- ===== src/Ethereum/Runloop/Accounts.antt =====
-- The lines of statistics and the executed blocks add up to the totals that the loop returns.
use monad_fork.Ethereum.{execute_args, process_ethereum_block}
use monad_fork.Node.Views.{executed_txs, executed_gas, logged_txs, logged_gas}
use monad_fork.Prelude.{
  length, ◌∙◌, ◌&&◌, sym, ap, not, List, leb, Bool-cases, some, subst₂, refl, inl, inr,
  Option-cases, [], ◌∷◌, Bool, Option, u64_mod, ◌+◌, ◌≤◌, ◌<◌, ◌≡◌, arith, ℕ, u64_max, add64,
}
use monad_fork.Node.Ending.{returned, End}
use monad_fork.Ethereum.Runloop.{
  start, after_round, loop, runloop_ethereum, finish, batch_size, round, Loop, count_block,
  report_batch, advance,
}
use monad_fork.Node.Outcome.{Outcome, err, abort, ok}
use monad_fork.Node.Externals.{execute, log_tps, Externals, History}
use monad_fork.Node.Block.{Block}

-- `uint64_t` sums of what was reported and executed before the run, and of the run's own totals.
record Balanced (before : History) (s : Loop) (h : History) : Type 0 where
  pub txs_balance : add64 (logged_txs h) s.batch_num_txs ≡ add64 (logged_txs before) s.ntxs
  pub gas_balance : add64 (logged_gas h) s.batch_gas ≡ add64 (logged_gas before) s.total_gas
  pub txs_executed : executed_txs h ≡ add64 (executed_txs before) s.ntxs
  pub gas_executed : executed_gas h ≡ add64 (executed_gas before) s.total_gas
  pub no_txs : s.batch_num_blocks ≡ 0 → s.batch_num_txs ≡ 0
  pub no_gas : s.batch_num_blocks ≡ 0 → s.batch_gas ≡ 0
  pub few_blocks : s.batch_num_blocks ≤ s.block_num

count_block-Balanced :
    (before : History) (block : Block) (s : Loop) (h h' : History)
    → s.block_num < u64_max
    → logged_txs h' ≡ logged_txs h
    → logged_gas h' ≡ logged_gas h
    → executed_txs h' ≡ add64 (executed_txs h) (length block.transactions)
    → executed_gas h' ≡ add64 (executed_gas h) block.header.gas_used
    → Balanced before s h
    → (add64 (logged_txs h') (count_block block s).batch_num_txs
        ≡ add64 (logged_txs before) (count_block block s).ntxs)
      × (add64 (logged_gas h') (count_block block s).batch_gas
          ≡ add64 (logged_gas before) (count_block block s).total_gas)
      × ((count_block block s).batch_num_blocks ≤ s.block_num + 1)
      × (0 < (count_block block s).batch_num_blocks)
      × (executed_txs h' ≡ add64 (executed_txs before) (count_block block s).ntxs)
      × (executed_gas h' ≡ add64 (executed_gas before) (count_block block s).total_gas)
unfolding count_block
count_block-Balanced before block s h h' small t g et eg b = (
  rw t (omega (arith, b.txs_balance)),
  rw g (omega (arith, b.gas_balance)),
  omega (arith, b.few_blocks),
  omega (arith, b.few_blocks),
  omega (arith, et, b.txs_executed),
  omega (arith, eg, b.gas_executed),
)

report_batch-Balanced :
    (before : History) (size id : ℕ) (s s' : Loop) (h h' : History)
    → s.block_num < u64_max
    → report_batch size s h ≡ (s', h')
    → add64 (logged_txs h) s.batch_num_txs ≡ add64 (logged_txs before) s.ntxs
    → add64 (logged_gas h) s.batch_gas ≡ add64 (logged_gas before) s.total_gas
    → s.batch_num_blocks ≤ s.block_num + 1
    → 0 < s.batch_num_blocks
    → executed_txs h ≡ add64 (executed_txs before) s.ntxs
    → executed_gas h ≡ add64 (executed_gas before) s.total_gas
    → Balanced before (advance id s') h'
unfolding report_batch advance logged_txs logged_gas executed_txs executed_gas
report_batch-Balanced before size id s s' h h' small e t g few pos et eg = record {
  txs_balance = ground arith;
  gas_balance = ground arith;
  txs_executed = ground arith;
  gas_executed = ground arith;
  no_txs = ground arith;
  no_gas = ground arith;
  few_blocks = ground arith;
}

process-logged :
    (ext : Externals) (rev : ℕ) (block : Block) (block_id parent : ℕ) (tracing : Bool) (h : History)
    → (logged_txs (process_ethereum_block ext rev block block_id parent tracing h).1 ≡ logged_txs h)
      × (logged_gas (process_ethereum_block ext rev block block_id parent tracing h).1
          ≡ logged_gas h)
unfolding process_ethereum_block logged_txs logged_gas
process-logged ext rev block block_id parent tracing h = (ground arith, ground arith)

process-executed :
    (ext : Externals) (rev : ℕ) (block : Block) (block_id parent : ℕ) (tracing : Bool) (h : History)
    → (process_ethereum_block ext rev block block_id parent tracing h).0 ≡ ok tt
    → (executed_txs (process_ethereum_block ext rev block block_id parent tracing h).1
        ≡ add64 (executed_txs h) (length block.transactions))
      × (executed_gas (process_ethereum_block ext rev block block_id parent tracing h).1
          ≡ add64 (executed_gas h) block.header.gas_used)
unfolding process_ethereum_block execute_args executed_txs executed_gas
process-executed ext rev block block_id parent tracing h e = (ground arith, ground arith)

logged-lt : (h : History) → (logged_txs h < u64_mod) × (logged_gas h < u64_mod)
unfolding logged_txs logged_gas
logged-lt [] = (omega arith, omega arith)
logged-lt (log_tps n b t g ∷ h) = (omega arith, omega arith)
logged-lt (_ ∷ h) = logged-lt h

executed-lt : (h : History) → (executed_txs h < u64_mod) × (executed_gas h < u64_mod)
unfolding executed_txs executed_gas
executed-lt [] = (omega arith, omega arith)
executed-lt (execute args ∷ h) = (omega arith, omega arith)
executed-lt (_ ∷ h) = executed-lt h

module _ (ext : Externals) (block_db : ℕ → Option Block) (end_block_num : ℕ) (tracing : Bool) where
  -- A round that succeeds, step by step.
  round-ok :
      (block : Block) (s s' : Loop) (h h' : History)
      → block_db s.block_num ≡ some block
      → round ext block_db end_block_num tracing s h ≡ (ok s', h')
      → let done =
          (process_ethereum_block ext
            (ext.get_revision block.header.number block.header.timestamp)
            block
            block.header.number
            s.parent_block_id
            tracing
            h).1 in
        let reported = report_batch (batch_size end_block_num) (count_block block s) done in
        ((process_ethereum_block ext
            (ext.get_revision block.header.number block.header.timestamp)
            block
            block.header.number
            s.parent_block_id
            tracing
            h).0
          ≡ ok tt)
        × (advance block.header.number reported.0 ≡ s')
        × (reported.1 ≡ h')
  unfolding round
  round-ok block s s' h h' p e = (ground arith, ground arith, ground arith)

  round-Balanced :
      (before : History) (s s' : Loop) (h h' : History)
      → s.block_num < u64_max
      → round ext block_db end_block_num tracing s h ≡ (ok s', h')
      → Balanced before s h
      → Balanced before s' h'
  unfolding round count_block
  round-Balanced before s s' h h' small e b = elim (Option-cases (block_db s.block_num)) [
    | inl p ↦ absurd (ground arith)
    | inr (block, p) ↦
        let rev = ext.get_revision block.header.number block.header.timestamp in
        let quiet = process-logged ext rev block block.header.number s.parent_block_id tracing h in
        let steps = round-ok block s s' h h' p e in
        let ran =
          process-executed ext rev block block.header.number s.parent_block_id tracing h steps.0 in
        let counted = count_block-Balanced before block s h _ small quiet.0 quiet.1 ran.0 ran.1 b in
        subst₂ (Balanced before) steps.1 steps.2 (
          report_batch-Balanced before (batch_size end_block_num) block.header.number
            (count_block block s) _ _ _ small refl counted.0 counted.1 counted.2 counted.3 counted.4
            counted.5)
  ]

  finish-Balanced :
      (before : History) (s : Loop) (h : History)
      → Balanced before s h
      → (add64 (logged_txs before) s.ntxs
          ≡ logged_txs (finish ext block_db end_block_num tracing s h).history)
        × (add64 (logged_gas before) s.total_gas
            ≡ logged_gas (finish ext block_db end_block_num tracing s h).history)
        × (executed_txs (finish ext block_db end_block_num tracing s h).history
            ≡ add64 (executed_txs before) s.ntxs)
        × (executed_gas (finish ext block_db end_block_num tracing s h).history
            ≡ add64 (executed_gas before) s.total_gas)
  unfolding finish logged_txs logged_gas executed_txs executed_gas
  finish-Balanced before s h b =
      (ground (arith, logged-lt h), ground (arith, logged-lt h), ground arith, ground arith)

  -- What a run that returns says of its statistics.
  abbrev pub Reported : History → End → Type 0
  Reported before r =
      (ntxs total_gas : ℕ)
      → r.ending ≡ returned ntxs total_gas
      → (logged_txs r.history ≡ add64 (logged_txs before) ntxs)
        × (logged_gas r.history ≡ add64 (logged_gas before) total_gas)
        × (executed_txs r.history ≡ add64 (executed_txs before) ntxs)
        × (executed_gas r.history ≡ add64 (executed_gas before) total_gas)

  finish-Reported :
      (before : History) (s : Loop) (h : History)
      → Balanced before s h
      → Reported before (finish ext block_db end_block_num tracing s h)
  unfolding finish
  finish-Reported before s h b ntxs total_gas e =
      let balance = finish-Balanced before s h b in
      let totals : (s.ntxs ≡ ntxs) × (s.total_gas ≡ total_gas) = (ground arith, ground arith) in
      (
        sym balance.0 ∙ ap (add64 (logged_txs before)) totals.0,
        sym balance.1 ∙ ap (add64 (logged_gas before)) totals.1,
        balance.2 ∙ ap (add64 (executed_txs before)) totals.0,
        balance.3 ∙ ap (add64 (executed_gas before)) totals.1,
      )

  after_round-Reported :
      (go_on : Loop → History → End) (before : History) (s : Loop) (h : History) (o : Outcome Loop)
      (h' : History)
      → ((s' : Loop) (h' : History) → Balanced before s' h' → Reported before (go_on s' h'))
      → s.block_num < u64_max
      → Balanced before s h
      → round ext block_db end_block_num tracing s h ≡ (o, h')
      → Reported before (after_round go_on s (o, h'))
  unfolding after_round
  after_round-Reported go_on before s h (ok s') h' ih small b e =
      ih s' h' (round-Balanced before s s' h h' small e b)
  after_round-Reported go_on before s h (err x) h' ih small b e = λ n g p. absurd (ground arith)
  after_round-Reported go_on before s h abort h' ih small b e = λ n g p. absurd (ground arith)

  loop-Reported :
      (stops : List Bool) (before : History) (s : Loop) (h : History)
      → end_block_num < u64_max
      → Balanced before s h
      → Reported before (loop ext block_db end_block_num tracing stops s h)
  unfolding loop
  loop-Reported [] before s h small b = elim (Bool-cases (leb s.block_num end_block_num)) [
    | inl e ↦ rw e (λ n g p. absurd (ground arith))
    | inr e ↦ rw e (finish-Reported before s h b)
  ]
  loop-Reported (stop ∷ stops) before s h small b =
      elim (Bool-cases (leb s.block_num end_block_num && not stop)) [
        | inr e ↦ rw e (finish-Reported before s h b)
        | inl e ↦ rw e (
            after_round-Reported (loop ext block_db end_block_num tracing stops) before s h _ _
              (λ s' h'. loop-Reported stops before s' h' small) (ground arith) b refl)
      ]

  -- When a run returns, the totals that it returns are the sums, as `uint64_t`, of the transactions
  -- and of the gas of the blocks that it executed; and the statistics lines that it wrote add up to
  -- the same totals. The last block number is below the largest `uint64_t`.
  pub runloop_reports :
      (block_num : ℕ) (stops : List Bool) (h : History) (ntxs total_gas : ℕ)
      → end_block_num < u64_max
      → (runloop_ethereum ext block_db end_block_num tracing block_num stops h).ending
        ≡ returned ntxs total_gas
      → let after =
          (runloop_ethereum ext block_db end_block_num tracing block_num stops h).history in
        (logged_txs after ≡ add64 (logged_txs h) ntxs)
        × (logged_gas after ≡ add64 (logged_gas h) total_gas)
        × (executed_txs after ≡ add64 (executed_txs h) ntxs)
        × (executed_gas after ≡ add64 (executed_gas h) total_gas)
  unfolding runloop_ethereum
  runloop_reports block_num stops h ntxs total_gas small =
      loop-Reported stops h (start block_num) h small
        (record {
          txs_balance = refl;
          gas_balance = refl;
          txs_executed = sym (omega (arith, executed-lt h));
          gas_executed = sym (omega (arith, executed-lt h));
          no_txs = λ _. refl;
          no_gas = λ _. refl;
          few_blocks = omega arith;
        })
        ntxs total_gas
