-- ===== src/Monad/Validate/Laws.antt =====
-- What the two validations accept.
use monad_fork.Prelude.{
  ap₂, ◌+◌, ◌≤◌, ◌<◌, ◌≡◌, refl, ◌↔◌, true, none, some, [], ◌∷◌, arith, ℕ, Option, List, u64_mod,
  length, All,
}
use monad_fork.Ledger.Range.{ascending}
use monad_fork.Monad.Validate.{
  validate_from, validate_delayed_execution_results, same_root, validate_live_execution_outputs,
}
use monad_fork.Node.Outcome.{wrong_ommers_hash, wrong_merkle_root, gas_above_limit, ok, err}
use monad_fork.Node.Block.{BlockHeader}

abbrev pub numbers : List BlockHeader → List ℕ
numbers [] = []
numbers (result ∷ rest) = result.number ∷ numbers rest

module _ (hash_of : BlockHeader → ℕ) (buffer : ℕ → ℕ) where
  abbrev pub Matches : BlockHeader → Type 0
  Matches result = hash_of result ≡ buffer result.number

  validate_from_iff :
      (n : ℕ) (results : List BlockHeader)
      → n + length results ≤ u64_mod
      → (validate_from hash_of buffer n results ≡ true)
        ↔ ((numbers results ≡ ascending (length results) n) × All Matches results)
  unfolding validate_from
  validate_from_iff n [] small = (λ _. (refl, tt), λ _. refl)
  validate_from_iff n (result ∷ []) small = (λ e. (ground arith, ground arith), λ e. ground arith)
  validate_from_iff n (result ∷ next ∷ rest) small =
      let (accepts, complete) = validate_from_iff (n + 1) (next ∷ rest) (omega arith) in
      (
        λ e.
            let ih = accepts (ground arith) in
            (
              let same : result.number ≡ n = ground arith in ap₂ ◌∷◌ same ih.0,
              (ground arith, ih.1),
            ),
        λ (e, all).
            let same : result.number ≡ n = ground arith in
            let tail_ : numbers (next ∷ rest) ≡ ascending (length (next ∷ rest)) (n + 1) =
              ground arith in
            let ih = complete (tail_, all.1) in ground arith,
      )

  -- The delayed results are accepted exactly if their numbers go up by one from the first and each of
  -- them has the hash that the buffer holds for its number.
  pub validate_delayed_execution_results_iff :
      (front : BlockHeader) (rest : List BlockHeader)
      → front.number + length (front ∷ rest) ≤ u64_mod
      → (validate_delayed_execution_results hash_of buffer (front ∷ rest) ≡ true) ↔ (
          (numbers (front ∷ rest) ≡ ascending (length (front ∷ rest)) front.number)
          × All Matches (front ∷ rest))
  unfolding validate_delayed_execution_results
  validate_delayed_execution_results_iff front rest small =
      validate_from_iff front.number (front ∷ rest) small

same_root_iff : (a b : Option ℕ) → (same_root a b ≡ true) ↔ (a ≡ b)
unfolding same_root
same_root_iff none none = ground arith
same_root_iff none (some b) = ground arith
same_root_iff (some a) none = ground arith
same_root_iff (some a) (some b) = ground arith

-- The outputs of a live block are accepted exactly if the three roots are the input's and the gas
-- used is within the limit; otherwise the first check that fails names the error, an ommers hash
-- before a root and a root before the gas.
pub validate_live_execution_outputs_iff :
    (input output : BlockHeader)
    → let r = validate_live_execution_outputs input output in
      let ommers = input.ommers_hash ≡ output.ommers_hash in
      let roots =
        (input.transactions_root ≡ output.transactions_root)
        × (input.withdrawals_root ≡ output.withdrawals_root) in
      ((r ≡ ok tt) ↔ (ommers × roots × (output.gas_used ≤ output.gas_limit)))
      × ((r ≡ err wrong_ommers_hash) ↔ (¬ ommers))
      × ((r ≡ err wrong_merkle_root) ↔ (ommers × (¬ roots)))
      × ((r ≡ err gas_above_limit) ↔ (ommers × roots × (output.gas_limit < output.gas_used)))
unfolding validate_live_execution_outputs
validate_live_execution_outputs_iff input output =
    let e = same_root_iff input.withdrawals_root output.withdrawals_root in
    (ground arith, ground arith, ground arith, ground arith)
