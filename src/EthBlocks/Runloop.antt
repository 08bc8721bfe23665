-- ===== src/EthBlocks/Runloop.antt =====
-- The main loop of runloop_monad_ethblocks.
pub mod Laws
pub mod Range
use monad_fork.Node.Ending.{End, running, aborted, failed}
use monad_fork.Prelude.{◌&&◌, some, [], ◌∷◌, if◌then◌else◌, Bool, not, Option, List, leb, ℕ}
use monad_fork.Node.Run.{◌>>=◌, ◌>>◌, Run, try_, asserts}
use monad_fork.EthBlocks.{process_monad_block}
use monad_fork.Ethereum.Runloop.{
  Loop, batch_size, start, count_block, report_batch, advance, finish,
}
use monad_fork.EthBlocks.Warm.{warm_sets}
use monad_fork.Node.Externals.{History, Externals}
use monad_fork.Node.Outcome.{Outcome, ok, err, abort, or_abort}
use monad_fork.Node.Block.{Block, AddressSet}

-- The loop's variables: the counters, and the sets of the two blocks before.
pub record Sets : Type 0 where
  pub counters : Loop
  pub parent_set : Option AddressSet
  pub grandparent_set : Option AddressSet

-- An error leaves the caller's number alone: it is written behind the loop only.
unfoldable pub after_round : ℕ → (Sets → History → End) → Outcome Sets × History → End
after_round n next_round (ok s, h) = next_round s h
after_round n next_round (err e, h) = record { ending = failed e; block_num = n; history = h }
after_round n next_round (abort, h) = record { ending = aborted; block_num = n; history = h }

module _ (ext : Externals) (block_db : ℕ → Option Block) (end_block_num : ℕ) (tracing : Bool) where
  -- What follows a block that was processed.
  unfoldable pub after_block : Block → AddressSet → Sets → History → Outcome Sets × History
  unfolding count_block report_batch advance batch_size
  after_block block addresses s h =
      let (counters, h') =
        report_batch (batch_size end_block_num) (count_block block s.counters) h in
      (
        ok (record {
          counters = advance block.header.number counters;
          parent_set = some addresses;
          grandparent_set = s.parent_set;
        }),
        h',
      )

  unfoldable pub round : Sets → Run Sets
  unfolding after_block process_monad_block
  round s = do
    block ← try_ (or_abort (block_db s.counters.block_num))
    let rev = ext.get_monad_revision block.header.timestamp
    asserts (ext.has_monad_traits rev)
    addresses ←
        process_monad_block ext rev block block.header.number s.counters.parent_block_id tracing
          s.grandparent_set s.parent_set
    after_block block addresses s

  -- The while loop and what follows it, over the readings of `stop`.
  unfoldable pub loop : ℕ → List Bool → Sets → History → End
  unfolding round after_round finish
  loop n [] s h =
      if leb s.counters.block_num end_block_num
      then record { ending = running; block_num = n; history = h }
      else finish ext block_db end_block_num tracing s.counters h
  loop n (stop ∷ stops) s h =
      let rest : End = after_round n (loop n stops) (round s h) in
      if leb s.counters.block_num end_block_num && not stop
      then rest
      else finish ext block_db end_block_num tracing s.counters h

  unfoldable pub enter :
      ℕ → List Bool → History → Outcome (Option AddressSet × Option AddressSet) → End
  unfolding loop
  enter n stops h (ok (parent, grandparent)) =
      loop n stops
        (record { counters = start n; parent_set = parent; grandparent_set = grandparent }) h
  enter n stops h (err e) = record { ending = failed e; block_num = n; history = h }
  enter n stops h abort = record { ending = aborted; block_num = n; history = h }

  unfoldable pub runloop_monad_ethblocks : ℕ → List Bool → History → End
  unfolding enter warm_sets
  runloop_monad_ethblocks finalized_block_num stops h =
      enter finalized_block_num stops h (warm_sets ext block_db finalized_block_num)
