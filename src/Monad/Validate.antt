-- ===== src/Monad/Validate.antt =====
-- validate_delayed_execution_results and validate_live_execution_outputs.
pub mod Laws
use monad_fork.Prelude.{
  true, false, none, some, [], ◌∷◌, ◌==◌, ◌!=◌, if◌then◌else◌, ℕ, Bool, not, Option, List, ltb,
  add64,
}
use monad_fork.Node.Outcome.{
  wrong_ommers_hash, wrong_merkle_root, gas_above_limit, Outcome, ok, err,
}
use monad_fork.Node.Block.{BlockHeader}

-- `hash_of` is the hash of an encoded header, `buffer` the hash that the buffer holds for a number.
module _ (hash_of : BlockHeader → ℕ) (buffer : ℕ → ℕ) where
  unfoldable pub validate_from : ℕ → List BlockHeader → Bool
  validate_from expected_block_number [] = true
  validate_from expected_block_number (result ∷ rest) =
      if expected_block_number != result.number
      then false
      else if hash_of result != buffer result.number
      then false
      else validate_from (add64 result.number 1) rest

  unfoldable pub validate_delayed_execution_results : List BlockHeader → Bool
  unfolding validate_from
  validate_delayed_execution_results [] = true
  validate_delayed_execution_results (front ∷ rest) = validate_from front.number (front ∷ rest)

-- `==` of std::optional<bytes32_t>
unfoldable pub same_root : Option ℕ → Option ℕ → Bool
same_root none none = true
same_root (some a) (some b) = a == b
same_root _ _ = false

unfoldable pub validate_live_execution_outputs : BlockHeader → BlockHeader → Outcome (Unit {0})
unfolding same_root
validate_live_execution_outputs input output =
    if input.ommers_hash != output.ommers_hash
    then err wrong_ommers_hash
    else if input.transactions_root != output.transactions_root
    then err wrong_merkle_root
    else if not (same_root input.withdrawals_root output.withdrawals_root)
    then err wrong_merkle_root
    else if ltb output.gas_limit output.gas_used
    then err gas_above_limit
    else ok tt
