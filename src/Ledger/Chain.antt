-- ===== src/Ledger/Chain.antt =====
-- The visited headers form a chain of parents.
use monad_fork.Node.Outcome.{ok}
use monad_fork.Ledger.{header_at, Codec}
use monad_fork.Node.Block.{ConsensusHeader, Bytes}
use monad_fork.Ledger.Range.{put, walks, Visited, Consecutive, head_ok, walk-step}
use monad_fork.Prelude.{
  zero, suc, ◌+◌, ◌≤◌, ◌<◌, ◌≡◌, inl, inr, false, some, [], ◌∷◌, arith, ℕ, sym, subst, Option, leb,
  Bool-cases, u64_max, add64,
}
use monad_fork.Ledger.Walk.{walk}

-- Each header after the first names the one before it as its parent.
abbrev pub Chained : Visited → Type 0
Chained [] = Unit
Chained ((id, header) ∷ []) = Unit
Chained ((id, header) ∷ (id', header') ∷ rest) =
    (header'.parent_id ≡ id) × Chained ((id', header') ∷ rest)

module _ (codec : Codec) (dir : ℕ → Option Bytes) (start end_ : ℕ) where
  -- The walk stands at the parent of the first visited header.
  abbrev pub AtParent : ℕ → Visited → Type 0
  AtParent id [] = Unit
  AtParent id ((i, header) ∷ rest) =
      (header.parent_id ≡ id) × (header_at codec dir i ≡ ok header) × (header.seqno ≤ end_)

  put-Chained :
      (id : ℕ) (header : ConsensusHeader) (acc : Visited)
      → AtParent id acc
      → Chained acc
      → Chained (put codec dir start end_ id header acc)
  put-Chained id header [] at c = ground arith
  put-Chained id header ((i, h) ∷ rest) at c = ground arith

  put-AtParent :
      (id : ℕ) (header : ConsensusHeader) (acc : Visited)
      → Consecutive codec dir
      → start < u64_max
      → header_at codec dir id ≡ ok header
      → leb header.seqno (add64 start 1) ≡ false
      → AtParent id acc
      → AtParent header.parent_id (put codec dir start end_ id header acc)
  put-AtParent id header [] con small found high at = ground arith
  put-AtParent id header ((i, h) ∷ rest) con small found high at =
      let found' : header_at codec dir h.parent_id ≡ ok header =
        subst (λ x. header_at codec dir x ≡ ok header) (sym at.0) found in
      ground (arith, con i h header at.1 found')

  pub walk-Chained :
      (fuel id : ℕ) (acc r : Visited)
      → Consecutive codec dir
      → start < u64_max
      → walks codec dir start end_ fuel id acc ≡ some (ok r)
      → AtParent id acc
      → Chained acc
      → Chained r
  unfolding walk
  walk-Chained zero id acc r con small e at c = absurd (ground arith)
  walk-Chained (suc fuel) id acc r con small e at c =
      let (header, found) = head_ok codec dir start end_ (suc fuel) id acc r e in
      let step = walk-step codec dir start end_ fuel id header acc found in
      elim (Bool-cases (leb header.seqno (add64 start 1))) [
        | inl low ↦
            let same : r ≡ put codec dir start end_ id header acc = ground (arith, step) in
            rw same (put-Chained id header acc at c)
        | inr high ↦
            let on : walks codec dir start end_ fuel header.parent_id
                  (put codec dir start end_ id header acc)
                ≡ some (ok r) =
              ground (arith, step) in
            walk-Chained fuel header.parent_id (put codec dir start end_ id header acc) r con small
              on (put-AtParent id header acc con small found high at)
              (put-Chained id header acc at c)
      ]

  -- A parent can be read as long as the walk has to go on.
  abbrev pub Complete : Type 0
  Complete =
      (id : ℕ) (header : ConsensusHeader)
      → header_at codec dir id ≡ ok header
      → start + 1 < header.seqno
      → (parent : ConsensusHeader) × (header_at codec dir header.parent_id ≡ ok parent)

  pub walk_returns :
      (fuel id : ℕ) (header : ConsensusHeader) (acc : Visited)
      → Consecutive codec dir
      → Complete
      → start < u64_max
      → header_at codec dir id ≡ ok header
      → header.seqno < fuel
      → (r : Visited) × (walks codec dir start end_ fuel id acc ≡ some (ok r))
  unfolding walk
  walk_returns zero id header acc con all small found bound = absurd (omega arith)
  walk_returns (suc fuel) id header acc con all small found bound =
      let step = walk-step codec dir start end_ fuel id header acc found in
      elim (Bool-cases (leb header.seqno (add64 start 1))) [
        | inl low ↦ (put codec dir start end_ id header acc, ground (arith, step))
        | inr high ↦
            let (parent, found') = all id header found (ground arith) in
            let (r, e) =
              walk_returns fuel header.parent_id parent (put codec dir start end_ id header acc) con
                all small found' (omega (arith, con id header parent found found')) in
            (r, ground (arith, step, e))
      ]
