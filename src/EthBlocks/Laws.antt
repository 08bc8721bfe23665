-- ===== src/EthBlocks/Laws.antt =====
-- What one block does to the database, on every path.
use monad_fork.Prelude.{◌≡◌, inl, inr, ◌∷◌, arith, if◌then◌else◌, Bool, Option, List, map, ℕ}
use monad_fork.EthBlocks.{process_monad_block}
use monad_fork.Node.Views.{finalized, hashes_set, verified, is_ok, Outcome-cases}
use monad_fork.Node.Senders.{collect_senders, senders_and_authorities}
use monad_fork.Node.Externals.{History, Externals}
use monad_fork.Node.Outcome.{Outcome, ok}
use monad_fork.Node.Block.{Block, AddressSet}

module _ (ext : Externals) (rev : ℕ) (block : Block) (block_id parent : ℕ) (tracing : Bool)
    (grandparent_set parent_set : Option AddressSet) where
  abbrev after_monad : History → Outcome AddressSet × History
  after_monad h =
      process_monad_block ext rev block block_id parent tracing grandparent_set parent_set h

  -- The block is finalized, marked as verified and entered in the hash buffer, each exactly once, if
  -- and only if processing succeeds. On every error path the three are as they were.
  pub process_monad_atomic :
      (h : History)
      → (finalized (after_monad h).1 ≡ (
          if is_ok (after_monad h).0
          then (block.header.number, block_id) ∷ finalized h
          else finalized h))
        × (verified (after_monad h).1
            ≡ (if is_ok (after_monad h).0 then block.header.number ∷ verified h else verified h))
        × (map (λ p. p.0) (hashes_set (after_monad h).1) ≡ (
            if is_ok (after_monad h).0
            then block.header.number ∷ map (λ p. p.0) (hashes_set h)
            else map (λ p. p.0) (hashes_set h)))
  unfolding process_monad_block finalized verified hashes_set
  process_monad_atomic h = (ground arith, ground arith, ground arith)

  -- The senders of a block that succeeds were all recovered, and its set is theirs and the
  -- authorities'.
  pub process_monad_set :
      (h h' : History) (addresses : AddressSet)
      → after_monad h ≡ (ok addresses, h')
      → (senders : List ℕ) × (collect_senders block.transactions
            (ext.recover_senders block.transactions)
          ≡ ok senders)
        × (addresses ≡ senders_and_authorities senders (ext.recover_authorities block.transactions))
  unfolding process_monad_block
  process_monad_set h h' addresses e =
      elim (Outcome-cases
        (collect_senders block.transactions (ext.recover_senders block.transactions))) [
          | inr p ↦ absurd (ground arith)
          | inl (senders, p) ↦ (senders, p, ground arith)
        ]
