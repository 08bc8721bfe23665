-- ===== src/Monad/Context/Listed.antt =====
-- The blocks to execute are read from the ledger.
use monad_fork.Ledger.{header_at, Codec}
use monad_fork.Node.Block.{Bytes, ConsensusHeader}
use monad_fork.Prelude.{
  List, Option, ℕ, ◌≡◌, ◌∙◌, inl, inr, ◌&&◌, some, [], arith, ◌==◌, ◌!=◌, ap, subst, Bool-cases,
  Option-cases, List-cases, add64, All,
}
use monad_fork.Ledger.Fold.{total}
use monad_fork.Ledger.Keeps.{for_each_header-keeps}
use monad_fork.Ledger.Walk.{for_each_header}
use monad_fork.Monad.Context.{Contents, Agrees}
use monad_fork.Monad.Reading.{
  ToExecute, Pending, Tick, on_finalized, on_proposed, read_proposed, read_ledger,
}
use monad_fork.Monad.Context.Handled.{IsListed}
use monad_fork.Node.Views.{Outcome-cases}
use monad_fork.Node.Externals.{History, Externals}
use monad_fork.Node.Outcome.{Outcome, ok}

-- What a round finds on the disk is what the ledger holds.
abbrev pub AgreesAt : Codec → Contents → Tick → Type 0
AgreesAt codec ledger tick =
    Agrees codec ledger tick.at_finalized
    × Agrees codec ledger tick.at_proposed
    × Agrees codec ledger tick.at_execute

module _ (ext : Externals) (codec : Codec) (ledger : Contents) (fuel end_block_num : ℕ) where
  module _ (h : History) where
    on_finalized-IsListed :
        (id : ℕ) (header : ConsensusHeader) (p : Pending)
        → header ≡ ledger.header_of id
        → All (IsListed ledger) p.to_execute
        → All (IsListed ledger) (on_finalized ext h id header p).to_execute
    unfolding on_finalized
    on_finalized-IsListed id header p e all_ =
        elim (Bool-cases (ext.has_proposal id header.seqno h)) [
          | inl known ↦ rw known all_
          | inr new ↦ rw new (e, all_)
        ]

    on_proposed-IsListed :
        (head last_finalized id : ℕ) (header : ConsensusHeader) (l : List ToExecute)
        → header ≡ ledger.header_of id
        → All (IsListed ledger) l
        → All (IsListed ledger) (on_proposed ext h head last_finalized id header l)
    unfolding on_proposed
    on_proposed-IsListed head last_finalized id header l e all_ =
        elim (Bool-cases (header.seqno == add64 last_finalized 1 && head != header.parent_id)) [
          | inl foreign ↦ rw foreign tt
          | inr good ↦ rw good (elim (Bool-cases (ext.has_proposal id header.seqno h)) [
            | inl known ↦ rw known all_
            | inr new ↦ rw new (e, all_)
          ])
        ]

  module _ (tick : Tick) (agrees : AgreesAt codec ledger tick) (h : History) where
    read_proposed-IsListed :
        (last_finalized head : ℕ) (p p' : Pending)
        → All (IsListed ledger) p.to_execute
        → read_proposed ext codec fuel end_block_num tick h last_finalized (head, p) ≡ some (ok p')
        → All (IsListed ledger) p'.to_execute
    unfolding read_proposed
    read_proposed-IsListed last_finalized head p p' all_ e = elim (List-cases p.to_finalize) [
      | inr (t, rest, busy) ↦
          let same : p ≡ p' = ground arith in
          subst (λ x. All (IsListed ledger) x.to_execute) same all_
      | inl idle ↦
          let dir : ℕ → Option Bytes = tick.at_proposed.headers in
          let fn = on_proposed ext h head last_finalized in
          let w : Option (Outcome (ℕ × List ToExecute)) =
            for_each_header codec dir last_finalized end_block_num
              (total codec dir last_finalized end_block_num fn) fuel tick.at_proposed.proposed_head
              p.to_execute in
          elim (Option-cases w) [
            | inl q ↦ absurd (ground arith)
            | inr (o, q) ↦ elim (Outcome-cases o) [
              | inr bad ↦ absurd (ground arith)
              | inl ((head', l), good) ↦
                  let same : l ≡ p'.to_execute = ground arith in
                  subst (All (IsListed ledger)) same (
                    for_each_header-keeps (All (IsListed ledger)) codec dir last_finalized
                      end_block_num (total codec dir last_finalized end_block_num fn)
                      (λ id header s s' at kept called.
                        subst (All (IsListed ledger)) (ground arith) (
                          on_proposed-IsListed h head last_finalized id header s
                            (agrees.1.0 id header at) kept))
                      fuel tick.at_proposed.proposed_head p.to_execute head' l all_
                      (q ∙ ap some good))
            ]
          ]
    ]

    pub read_ledger-IsListed :
        (p : Pending)
        → read_ledger ext codec fuel end_block_num tick h ≡ some (ok p)
        → All (IsListed ledger) p.to_execute
    unfolding read_ledger
    read_ledger-IsListed p e =
        let start : ℕ = ext.latest_finalized_version h in
        let dir : ℕ → Option Bytes = tick.at_finalized.headers in
        let fn = total codec dir start end_block_num (on_finalized ext h) in
        let w : Option (Outcome (ℕ × Pending)) =
          for_each_header codec dir start end_block_num fn fuel tick.at_finalized.finalized_head
            (record { to_execute = []; to_finalize = [] }) in
        elim (Option-cases w) [
          | inl q ↦ absurd (ground arith)
          | inr (o, q) ↦ elim (Outcome-cases o) [
            | inr bad ↦ absurd (ground arith)
            | inl ((head, mid), good) ↦
                let keeps =
                  λ (id : ℕ) (header : ConsensusHeader) (x x' : Pending)
                      (at : header_at codec dir id ≡ ok header)
                      (kept : All (IsListed ledger) x.to_execute) (called : fn id header x ≡ ok x').
                    let same : on_finalized ext h id header x ≡ x' = ground arith in
                    subst (λ y. All (IsListed ledger) y.to_execute) same
                      (on_finalized-IsListed h id header x (agrees.0.0 id header at) kept) in
                let listed =
                  for_each_header-keeps (λ x. All (IsListed ledger) x.to_execute) codec dir start
                    end_block_num fn keeps fuel tick.at_finalized.finalized_head
                    (record { to_execute = []; to_finalize = [] }) head mid tt (q ∙ ap some good) in
                read_proposed-IsListed start head mid p listed (ground arith)
          ]
        ]
