-- ===== src/Monad/Reading/Laws.antt =====
-- What a round reads: the blocks to finalize are the next ones, in order.
use monad_fork.Prelude.{
  ltb, ◌≤◌, Option, ◌-◌, refl, ◌∙◌, inl, inr, arith, ◌==◌, min, append-nil, Bool-cases,
  Option-cases, ◌+◌, ◌≡◌, some, [], ◌∷◌, ℕ, ap, u64_max,
}
use monad_fork.Ledger.Walk.{for_each_header, walk}
use monad_fork.Ledger.Range.{
  walk_nothing, collect, head_ok, walk-seqnos, Visited, seqnos, ascending, Consecutive,
}
use monad_fork.Monad.Reading.{read_ledger, Pending, Tick, on_finalized, read_proposed}
use monad_fork.Node.Block.{Bytes}
use monad_fork.Ledger.{head_pointer_to_id, Codec}
use monad_fork.Ledger.Fold.{walk-fold, fold, total}
use monad_fork.Node.Views.{Outcome-cases}
use monad_fork.Node.Outcome.{Outcome, ok}
use monad_fork.Monad.Finalize.Laws.{blocks}
use monad_fork.Node.Externals.{History, Externals}

module _ (ext : Externals) (h : History) where
  pub blocks-fold :
      (visited : Visited) (p : Pending)
      → p.to_finalize ≡ []
      → blocks (fold (on_finalized ext h) visited p).to_finalize ≡ seqnos visited
  unfolding on_finalized
  blocks-fold [] p e = rw e
  blocks-fold ((id, header) ∷ visited) p e = ap (◌∷◌ header.seqno) (blocks-fold visited p e)

abbrev empty : Pending
empty = record { to_execute = []; to_finalize = [] }

module _ (ext : Externals) (codec : Codec) (fuel end_block_num : ℕ) where
  pub read_proposed-to_finalize :
      (tick : Tick) (h : History) (last_finalized head : ℕ) (p p' : Pending)
      → read_proposed ext codec fuel end_block_num tick h last_finalized (head, p) ≡ some (ok p')
      → p'.to_finalize ≡ p.to_finalize
  unfolding read_proposed
  read_proposed-to_finalize tick h last_finalized head p p' e = ground arith

  visited_walk :
      (tick : Tick) (h : History) (id : ℕ) (p : Pending)
      → let start = ext.latest_finalized_version h in
        let dir = tick.at_finalized.headers in
        Consecutive codec dir
        → end_block_num ≤ u64_max
        → walk codec dir start end_block_num
            (total codec dir start end_block_num (on_finalized ext h))
            fuel
            id
            empty
          ≡ some (ok p)
        → (k : ℕ) × (blocks p.to_finalize ≡ ascending k (start + 1)) × (k ≤ end_block_num - start)
  visited_walk tick h id p con small e =
      let start : ℕ = ext.latest_finalized_version h in
      let dir : ℕ → Option Bytes = tick.at_finalized.headers in
      let w : Option (Outcome Visited) = walk codec dir start end_block_num collect fuel id [] in
      let folded = walk-fold codec dir start end_block_num (on_finalized ext h) fuel id [] empty in
      elim (Option-cases w) [
        | inl q ↦ absurd (ground (arith, folded))
        | inr (o, q) ↦ elim (Outcome-cases o) [
          | inr bad ↦ absurd (ground (arith, folded))
          | inl (r, good) ↦
              let walked : w ≡ some (ok r) = q ∙ ap some good in
              let (header, at) = head_ok codec dir start end_block_num fuel id [] r walked in
              let same : p ≡ fold (on_finalized ext h) r empty = ground (arith, folded) in
              let found : blocks p.to_finalize ≡ seqnos r =
                ap (λ x. blocks x.to_finalize) same ∙ blocks-fold ext h r empty refl in
              elim (Bool-cases (ltb start u64_max)) [
                | inl below ↦ (
                  min header.seqno end_block_num - start,
                  found
                      ∙ walk-seqnos codec dir start end_block_num fuel id header [] r con
                          (ground arith) at walked
                      ∙ append-nil _,
                  omega arith,
                )
                | inr top ↦ (
                  0,
                  found
                      ∙ ap seqnos (
                          walk_nothing codec dir start end_block_num fuel id [] r (ground arith)
                            walked),
                  omega arith,
                )
              ]
        ]
      ]

  -- The walk from the finalized head, as a fold over the headers that it visits.
  finalized_walk :
      (tick : Tick) (h : History) (head : ℕ) (p : Pending)
      → let start = ext.latest_finalized_version h in
        let dir = tick.at_finalized.headers in
        Consecutive codec dir
        → end_block_num ≤ u64_max
        → for_each_header codec dir start end_block_num
            (total codec dir start end_block_num (on_finalized ext h))
            fuel
            tick.at_finalized.finalized_head
            empty
          ≡ some (ok (head, p))
        → (k : ℕ) × (blocks p.to_finalize ≡ ascending k (start + 1)) × (k ≤ end_block_num - start)
  unfolding for_each_header
  finalized_walk tick h head p con small e =
      elim (Outcome-cases (head_pointer_to_id codec tick.at_finalized.finalized_head)) [
        | inr bad ↦ absurd (ground arith)
        | inl (id, link) ↦ elim (Bool-cases (id == 0)) [
          | inl zero_id ↦
              let nothing : p ≡ empty = ground arith in
              (0, ap (λ x. blocks x.to_finalize) nothing, omega arith)
          | inr nonzero ↦ visited_walk tick h id p con small (ground arith)
        ]
      ]

  -- Whatever a round reads of the proposals, the blocks that it is to finalize are the ones behind the
  -- latest finalized block, without a gap and in order, and none of them lies beyond end_block_num.
  pub read_ledger-ascending :
      (tick : Tick) (h : History) (p : Pending)
      → Consecutive codec tick.at_finalized.headers
      → end_block_num ≤ u64_max
      → read_ledger ext codec fuel end_block_num tick h ≡ some (ok p)
      → (k : ℕ) × (blocks p.to_finalize ≡ ascending k (ext.latest_finalized_version h + 1))
        × (k ≤ end_block_num - ext.latest_finalized_version h)
  unfolding read_ledger
  read_ledger-ascending tick h p con small e =
      let start : ℕ = ext.latest_finalized_version h in
      let dir : ℕ → Option Bytes = tick.at_finalized.headers in
      let w : Option (Outcome (ℕ × Pending)) =
        for_each_header codec dir start end_block_num
          (total codec dir start end_block_num (on_finalized ext h)) fuel
          tick.at_finalized.finalized_head empty in
      elim (Option-cases w) [
        | inl q ↦ absurd (ground arith)
        | inr (o, q) ↦ elim (Outcome-cases o) [
          | inr bad ↦ absurd (ground arith)
          | inl ((head, p'), good) ↦
              let (k, found, bound) = finalized_walk tick h head p' con small (q ∙ ap some good) in
              let proposed : read_proposed ext codec fuel end_block_num tick h start (head, p')
                  ≡ some (ok p) =
                ground arith in
              (
                k,
                ap blocks (read_proposed-to_finalize tick h start head p' p proposed) ∙ found,
                bound,
              )
        ]
      ]
