-- ===== src/Node/Views.antt =====
-- What a history says: the blocks that were committed and finalized, the hashes that were entered
-- in the buffer of finalized blocks, and the sums of the statistics lines and
-- of the executed blocks.
use monad_fork.Prelude.{
  ◌≡◌, refl, ◌⊎◌, inl, inr, add64, Bool, length, List, ℕ, true, false, [], ◌∷◌,
}
use monad_fork.Node.Outcome.{err, abort, ok, Outcome}
use monad_fork.Node.Externals.{
  execute, commit, finalize, hash_buffer_set, log_tps, update_verified_block, History,
}

-- (number, block id), newest first
unfoldable pub finalized : History → List (ℕ × ℕ)
finalized [] = []
finalized (finalize n id ∷ h) = (n, id) ∷ finalized h
finalized (_ ∷ h) = finalized h

-- (block id, number), newest first
unfoldable pub committed : History → List (ℕ × ℕ)
committed [] = []
committed (commit args ∷ h) = (args.block_id, args.header.number) ∷ committed h
committed (_ ∷ h) = committed h

-- (number, hash), newest first
unfoldable pub hashes_set : History → List (ℕ × ℕ)
hashes_set [] = []
hashes_set (hash_buffer_set n hash ∷ h) = (n, hash) ∷ hashes_set h
hashes_set (_ ∷ h) = hashes_set h

unfoldable pub verified : History → List ℕ
verified [] = []
verified (update_verified_block n ∷ h) = n ∷ verified h
verified (_ ∷ h) = verified h

-- `uint64_t` sums over the statistics lines
unfoldable pub logged_txs : History → ℕ
logged_txs [] = 0
logged_txs (log_tps n blocks txs gas ∷ h) = add64 (logged_txs h) txs
logged_txs (_ ∷ h) = logged_txs h

unfoldable pub logged_gas : History → ℕ
logged_gas [] = 0
logged_gas (log_tps n blocks txs gas ∷ h) = add64 (logged_gas h) gas
logged_gas (_ ∷ h) = logged_gas h

unfoldable pub logged_blocks : History → ℕ
logged_blocks [] = 0
logged_blocks (log_tps n blocks txs gas ∷ h) = add64 (logged_blocks h) blocks
logged_blocks (_ ∷ h) = logged_blocks h

-- `uint64_t` sums over the blocks that were executed
unfoldable pub executed_txs : History → ℕ
executed_txs [] = 0
executed_txs (execute args ∷ h) = add64 (executed_txs h) (length args.block.transactions)
executed_txs (_ ∷ h) = executed_txs h

unfoldable pub executed_gas : History → ℕ
executed_gas [] = 0
executed_gas (execute args ∷ h) = add64 (executed_gas h) args.block.header.gas_used
executed_gas (_ ∷ h) = executed_gas h

abbrev pub is_ok {ℓ} : {A : Type ℓ} → Outcome A → Bool
is_ok (ok a) = true
is_ok _ = false

-- To split on an outcome and keep its value.
pub Outcome-cases {ℓ} : {A : Type ℓ} (o : Outcome A) → ((a : A) × (o ≡ ok a)) ⊎ (is_ok o ≡ false)
Outcome-cases (ok a) = inl (a, refl)
Outcome-cases (err e) = inr refl
Outcome-cases abort = inr refl

unfoldable pub finalized_numbers : History → List ℕ
finalized_numbers [] = []
finalized_numbers (finalize n id ∷ h) = n ∷ finalized_numbers h
finalized_numbers (_ ∷ h) = finalized_numbers h
