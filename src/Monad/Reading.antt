-- ===== src/Monad/Reading.antt =====
-- The two deques of a round of runloop_monad, and how they are filled from the ledger. The ledger is
-- written by another process, so each round is given what it finds on the disk.
pub mod Laws
use monad_fork.Prelude.{
  ◌&&◌, none, some, [], ◌∷◌, ◌==◌, ◌!=◌, if◌then◌else◌, ℕ, Bool, not, Option, List, add64,
}
use monad_fork.Ledger.{Codec, Disk}
use monad_fork.Ledger.Fold.{total}
use monad_fork.Ledger.Walk.{for_each_header}
use monad_fork.Node.Externals.{History, Externals}
use monad_fork.Node.Outcome.{Outcome, ok, err, abort, and_then}
use monad_fork.Node.Block.{BlockHeader, ConsensusHeader}

abbrev pub ToExecute : Type 0
ToExecute = ℕ × ConsensusHeader

pub record ToFinalize : Type 0 where
  pub block : ℕ
  pub block_id : ℕ
  pub verified_blocks : List ℕ

-- The two deques of a round.
pub record Pending : Type 0 where
  pub to_execute : List ToExecute
  pub to_finalize : List ToFinalize

-- The disk as the round's three readings find it.
pub record Tick : Type 0 where
  pub stop : Bool
  pub at_finalized : Disk
  pub at_proposed : Disk
  pub at_execute : Disk

abbrev pub block_numbers : List BlockHeader → List ℕ
block_numbers [] = []
block_numbers (h ∷ headers) = h.number ∷ block_numbers headers

-- The database has a node under the proposal's prefix, at its sequence number.
abbrev pub has_executed : Externals → History → ConsensusHeader → ℕ → Bool
has_executed ext h header block_id = ext.has_proposal block_id header.seqno h

module _ (ext : Externals) (h : History) where
  -- The callback of the walk from the finalized head.
  unfoldable pub on_finalized : ℕ → ConsensusHeader → Pending → Pending
  on_finalized id header p = record {
    to_execute = if has_executed ext h header id then p.to_execute else (id, header) ∷ p.to_execute;
    to_finalize =
        record {
          block = header.seqno;
          block_id = id;
          verified_blocks = block_numbers header.delayed_execution_results;
        }
        ∷ p.to_finalize;
  }

  -- The callback of the walk from the proposed head, with the canonical chain check.
  unfoldable pub on_proposed : ℕ → ℕ → ℕ → ConsensusHeader → List ToExecute → List ToExecute
  on_proposed finalized_head_id last_finalized id header to_execute =
      if header.seqno == add64 last_finalized 1 && finalized_head_id != header.parent_id
      then []
      else if not (has_executed ext h header id)
      then (id, header) ∷ to_execute
      else to_execute

module _ (ext : Externals) (codec : Codec) (fuel end_block_num : ℕ) where
  -- The proposals are read only if nothing is to be finalized.
  unfoldable pub read_proposed : Tick → History → ℕ → ℕ × Pending → Option (Outcome Pending)
  unfolding for_each_header on_proposed
  read_proposed tick h last_finalized (finalized_head_id, p) = elim p.to_finalize [
    | _ ∷ _ ↦ some (ok p)
    | [] ↦
        elim (for_each_header codec tick.at_proposed.headers last_finalized end_block_num
          (total codec tick.at_proposed.headers last_finalized end_block_num
            (on_proposed ext h finalized_head_id last_finalized))
          fuel tick.at_proposed.proposed_head p.to_execute) [
            | none ↦ none
            | some r ↦ some (and_then r λ x. ok (record p { to_execute = x.1 }))
          ]
  ]

  unfoldable pub read_ledger : Tick → History → Option (Outcome Pending)
  unfolding read_proposed for_each_header on_finalized
  read_ledger tick h =
      let last_finalized = ext.latest_finalized_version h in
      elim (for_each_header codec tick.at_finalized.headers last_finalized end_block_num
        (total codec tick.at_finalized.headers last_finalized end_block_num (on_finalized ext h))
        fuel tick.at_finalized.finalized_head (record { to_execute = []; to_finalize = [] })) [
          | none ↦ none
          | some (ok r) ↦ read_proposed tick h last_finalized r
          | some (err e) ↦ some (err e)
          | some abort ↦ some abort
        ]
