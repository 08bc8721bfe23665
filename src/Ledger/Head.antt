-- ===== src/Ledger/Head.antt =====
-- for_each_header from a head link.
use monad_fork.Ledger.Chain.{walk-Chained, Chained, Complete, walk_returns}
use monad_fork.Prelude.{
  ◌+◌, ◌-◌, ◌<◌, ◌≡◌, ◌∙◌, ◌≢◌, some, [], arith, ℕ, min, Option, append-nil, u64_max,
}
use monad_fork.Ledger.{Codec, head_pointer_to_id, header_at}
use monad_fork.Node.Block.{ConsensusHeader, Bytes}
use monad_fork.Ledger.Range.{Visited, collect, seqnos, ascending, Consecutive, walk-seqnos}
use monad_fork.Ledger.Walk.{for_each_header}
use monad_fork.Node.Outcome.{ok}

module _ (codec : Codec) (dir : ℕ → Option Bytes) (start end_ : ℕ) where
  -- From a head link to a block whose ancestors can all be read, and with more fuel than the head's
  -- sequence number, for_each_header returns. It hands to its callback exactly the headers with the
  -- sequence numbers from `start + 1` to the smaller of `end_` and the head's, and pushing them to
  -- the front puts them in ascending order, each the parent of the one behind it.
  pub for_each_header_range :
      (fuel head_id : ℕ) (head : Option Bytes) (header : ConsensusHeader)
      → Consecutive codec dir
      → Complete codec dir start end_
      → start < u64_max
      → head_pointer_to_id codec head ≡ ok head_id
      → head_id ≢ 0
      → header_at codec dir head_id ≡ ok header
      → header.seqno < fuel
      → (r : Visited) × (for_each_header codec dir start end_ collect fuel head []
          ≡ some (ok (head_id, r)))
        × (seqnos r ≡ ascending (min header.seqno end_ - start) (start + 1))
        × Chained r
  unfolding for_each_header
  for_each_header_range fuel head_id head header con all small link nonzero decoded bound =
      let (r, e) =
        walk_returns codec dir start end_ fuel head_id header [] con all small decoded bound in
      (
        r,
        ground (arith, e),
        walk-seqnos codec dir start end_ fuel head_id header [] r con small decoded e
            ∙ append-nil _,
        walk-Chained codec dir start end_ fuel head_id [] r con small e tt tt,
      )
