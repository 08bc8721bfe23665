-- ===== src/EthBlocks/Warm/Laws.antt =====
-- A block that was processed has the set that a start behind it computes.
use monad_fork.Prelude.{
  suc, ◌+◌, ◌-◌, ◌<◌, ◌≡◌, none, some, [], ◌∷◌, arith, ap, Option, List, length, set, replicate, ℕ,
}
use monad_fork.EthBlocks.Warm.{fill_present, set_of_block, warm_sets}
use monad_fork.Node.Senders.{fill_senders, collect_senders, senders_and_authorities}
use monad_fork.Node.Externals.{Externals}
use monad_fork.Node.Outcome.{ok}
use monad_fork.Node.Block.{Block, AddressSet}

fill_present-fill_senders :
    (recovered : List (Option ℕ)) (i : ℕ) (senders r : List ℕ)
    → fill_senders recovered i senders ≡ ok r
    → fill_present recovered i senders ≡ r
unfolding fill_senders fill_present
fill_present-fill_senders [] i senders r e = ground arith
fill_present-fill_senders (none ∷ recovered) i senders r e = absurd (ground arith)
fill_present-fill_senders (some a ∷ recovered) i senders r e =
    fill_present-fill_senders recovered (suc i) (set senders i a) r e

pub set_of_block_lem :
    (ext : Externals) (block : Block) (senders : List ℕ)
    → collect_senders block.transactions (ext.recover_senders block.transactions) ≡ ok senders
    → set_of_block ext block
      ≡ senders_and_authorities senders (ext.recover_authorities block.transactions)
unfolding collect_senders set_of_block
set_of_block_lem ext block senders e =
    ap (λ s. senders_and_authorities s (ext.recover_authorities block.transactions))
      (fill_present-fill_senders (ext.recover_senders block.transactions) 0
        (replicate (length block.transactions) 0) senders e)

-- One block further on, the new set is the parent's, and the parent's is the grandparent's.
pub warm_sets-next :
    (ext : Externals) (block_db : ℕ → Option Block) (n : ℕ) (block : Block)
    (parent grandparent : Option AddressSet)
    → 0 < n
    → block_db n ≡ some block
    → warm_sets ext block_db n ≡ ok (parent, grandparent)
    → warm_sets ext block_db (n + 1) ≡ ok (some (set_of_block ext block), parent)
unfolding warm_sets
warm_sets-next ext block_db n block parent grandparent pos found e =
    let here : n + 1 - 1 ≡ n = omega arith in
    let before : n + 1 - 2 ≡ n - 1 = omega arith in rw (here, before, found) (ground arith)
