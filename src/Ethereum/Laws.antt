-- ===== src/Ethereum/Laws.antt =====
-- What one block of the Ethereum runner does to the database, on every path.
use monad_fork.Prelude.{map, Bool, ℕ, ◌≡◌, ◌∷◌, arith, if◌then◌else◌}
use monad_fork.Node.Views.{is_ok, hashes_set, verified, finalized}
use monad_fork.Ethereum.{process_ethereum_block}
use monad_fork.Node.Externals.{History, Externals}
use monad_fork.Node.Outcome.{Outcome}
use monad_fork.Node.Block.{Block}

module _ (ext : Externals) (rev : ℕ) (block : Block) (block_id parent : ℕ) (tracing : Bool) where
  abbrev after : History → Outcome (Unit {0}) × History
  after h = process_ethereum_block ext rev block block_id parent tracing h

  -- The block is finalized, marked as verified and entered in the hash buffer, each exactly once, if
  -- and only if processing succeeds. On every error path the three are as they were.
  pub process_atomic :
      (h : History)
      → (finalized (after h).1 ≡ (
          if is_ok (after h).0 then (block.header.number, block_id) ∷ finalized h else finalized h))
        × (verified (after h).1
            ≡ (if is_ok (after h).0 then block.header.number ∷ verified h else verified h))
        × (map (λ p. p.0) (hashes_set (after h).1) ≡ (
            if is_ok (after h).0
            then block.header.number ∷ map (λ p. p.0) (hashes_set h)
            else map (λ p. p.0) (hashes_set h)))
  unfolding process_ethereum_block finalized verified hashes_set
  process_atomic h = (ground arith, ground arith, ground arith)
