-- ===== src/EthBlocks/Warm.antt =====
-- The sets of the two blocks before the first one, which runloop_monad_ethblocks computes from the
-- block database when it starts.
pub mod Laws
use monad_fork.Prelude.{
  zero, suc, ◌-◌, none, some, [], ◌∷◌, if◌then◌else◌, Option, List, ltb, length, set, replicate, ℕ,
}
use monad_fork.Node.Senders.{senders_and_authorities}
use monad_fork.Node.Externals.{Externals}
use monad_fork.Node.Outcome.{Outcome, ok, and_then, or_abort}
use monad_fork.Node.Block.{Block, AddressSet}

-- `senders[j] = ...` where one was recovered; the others stay zero.
unfoldable pub fill_present : List (Option ℕ) → ℕ → List ℕ → List ℕ
fill_present [] j senders = senders
fill_present (none ∷ recovered) j senders = fill_present recovered (suc j) senders
fill_present (some a ∷ recovered) j senders = fill_present recovered (suc j) (set senders j a)

unfoldable pub set_of_block : Externals → Block → AddressSet
unfolding fill_present
set_of_block ext block =
    senders_and_authorities
      (fill_present (ext.recover_senders block.transactions) 0
        (replicate (length block.transactions) 0))
      (ext.recover_authorities block.transactions)

unfoldable pub set_before : Externals → (ℕ → Option Block) → ℕ → Outcome (Option AddressSet)
unfolding set_of_block
set_before ext block_db n =
    and_then (or_abort (block_db n)) λ block. ok (some (set_of_block ext block))

-- The parent's set from block 2 on, and the grandparent's from block 3 on.
unfoldable pub warm_sets :
    Externals → (ℕ → Option Block) → ℕ → Outcome (Option AddressSet × Option AddressSet)
unfolding set_before
warm_sets ext block_db block_num =
    if ltb 1 block_num
    then (and_then (set_before ext block_db (block_num - 1)) λ parent.
        if ltb 2 block_num
        then (and_then (set_before ext block_db (block_num - 2))
            λ grandparent. ok (parent, grandparent))
        else ok (parent, none))
    else ok (none, none)
