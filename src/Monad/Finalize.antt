-- ===== src/Monad/Finalize.antt =====
-- The two loops of a round of runloop_monad: over the blocks to execute, and over those to finalize.
pub mod Laws
use monad_fork.Prelude.{none, some, [], ◌∷◌, ◌!=◌, if◌then◌else◌, ℕ, Bool, Option, List}
use monad_fork.Node.Run.{◌>>=◌, ◌>>◌, Run, pure, call}
use monad_fork.Ledger.{Codec}
use monad_fork.Monad.Reading.{ToExecute, ToFinalize}
use monad_fork.Monad.Cache.{BlockCache, erase_old}
use monad_fork.Monad.Handle.{handle_to_execute}
use monad_fork.Node.Externals.{
  finalize, update_verified_block, chain_finalize, record_block_finalized, record_block_verified,
  Externals,
}
use monad_fork.Node.Block.{Bytes}

unfoldable pub back : {A : Type 0} → List A → Option A
back [] = none
back (x ∷ []) = some x
back (x ∷ y ∷ rest) = back (y ∷ rest)

-- db.update_verified_block for the last verified block, unless that is INVALID_BLOCK_NUM
unfoldable pub verify_last : Externals → List ℕ → Run (Unit {0})
unfolding back
verify_last ext verified_blocks = elim (back verified_blocks) [
  | none ↦ pure tt
  | some n ↦ if n != ext.invalid_block_num then call (update_verified_block n) else pure tt
]

unfoldable pub finalize_one : Externals → ToFinalize → Run (Unit {0})
unfolding verify_last
finalize_one ext t = do
  call (finalize t.block t.block_id)
  call (chain_finalize t.block_id)
  call (record_block_finalized t.block_id t.block)
  verify_last ext t.verified_blocks
  call (record_block_verified t.verified_blocks)

-- The loop over to_finalize; the number is finalized_block_num.
unfoldable pub finalize_all : Externals → List ToFinalize → ℕ → Run ℕ
unfolding finalize_one
finalize_all ext [] n = pure n
finalize_all ext (t ∷ rest) n = do finalize_one ext t; finalize_all ext rest t.block

module _ (ext : Externals) (codec : Codec) (bodies : ℕ → Option Bytes) (start_block_num : ℕ)
    (enable_tracing : Bool) where
  -- The loop over to_execute, which an error leaves.
  unfoldable pub execute_all : ℕ → List ToExecute → BlockCache → Run BlockCache
  unfolding handle_to_execute
  execute_all last_finalized [] cache = pure cache
  execute_all last_finalized ((id, header) ∷ rest) cache = do
    cache' ←
        handle_to_execute ext codec bodies start_block_num enable_tracing last_finalized id header
          cache
    execute_all last_finalized rest cache'

unfoldable pub prune : List ToFinalize → BlockCache → BlockCache
unfolding back erase_old
prune to_finalize cache = elim (back to_finalize) [
  | none ↦ cache
  | some t ↦ erase_old t.block cache
]
