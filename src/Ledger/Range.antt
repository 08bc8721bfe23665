-- ===== src/Ledger/Range.antt =====
-- Which headers for_each_header visits, and in which order.
use monad_fork.Wal.{next}
use monad_fork.Prelude.{
  ◌&&◌, if◌then◌else◌, ltb, leb, Bool-cases, add64, zero, suc, ◌+◌, ◌-◌, ◌≤◌, ◌<◌, ◌≡◌, ◌∙◌, inl,
  inr, some, [], ◌∷◌, ◌++◌, arith, ℕ, min, sym, ap, Option, List, u64_max,
}
use monad_fork.Ledger.{Codec, header_at}
use monad_fork.Node.Block.{ConsensusHeader, Bytes}
use monad_fork.Ledger.Walk.{walk}
use monad_fork.Node.Views.{Outcome-cases}
use monad_fork.Node.Outcome.{Outcome, ok}

abbrev pub Visited : Type 0
Visited = List (ℕ × ConsensusHeader)

-- The callback that puts every header in front, as push_front does.
abbrev pub collect : ℕ → ConsensusHeader → Visited → Outcome Visited
collect id header visited = ok ((id, header) ∷ visited)

abbrev pub seqnos : Visited → List ℕ
seqnos [] = []
seqnos ((id, header) ∷ visited) = header.seqno ∷ seqnos visited

-- `k` numbers from `a` on.
abbrev pub ascending : ℕ → ℕ → List ℕ
ascending zero a = []
ascending (suc k) a = a ∷ ascending k (a + 1)

ascending-append : (k a : ℕ) (l : List ℕ) → ascending (suc k) a ++ l ≡ ascending k a ++ (a + k) ∷ l
ascending-append zero a l = let e : a + zero ≡ a = omega arith in rw e
ascending-append (suc k) a l =
    let e : a + 1 + k ≡ a + suc k = omega arith in
    ap (◌∷◌ a) (ascending-append k (a + 1) l ∙ ap (λ x. ascending k (a + 1) ++ x ∷ l) e)

-- A block's parent has the sequence number before its own.
abbrev pub Consecutive : Codec → (ℕ → Option Bytes) → Type 0
Consecutive codec dir =
    (id : ℕ) (header parent : ConsensusHeader)
    → header_at codec dir id ≡ ok header
    → header_at codec dir header.parent_id ≡ ok parent
    → header.seqno ≡ parent.seqno + 1

module _ (codec : Codec) (dir : ℕ → Option Bytes) (start end_ : ℕ) where
  abbrev pub walks : ℕ → ℕ → Visited → Option (Outcome Visited)
  walks = walk codec dir start end_ collect

  -- the first header of the walk
  pub head_ok :
      (fuel id : ℕ) (acc r : Visited)
      → walks fuel id acc ≡ some (ok r)
      → (header : ConsensusHeader) × (header_at codec dir id ≡ ok header)
  unfolding walk
  head_ok zero id acc r e = absurd (ground arith)
  head_ok (suc fuel) id acc r e = elim (Outcome-cases (header_at codec dir id)) [
    | inl found ↦ found
    | inr missing ↦ absurd (ground arith)
  ]

  seqnos-step :
      (header : ConsensusHeader) (id : ℕ) (acc : Visited)
      → start < header.seqno
      → header.seqno ≤ end_
      → ascending (header.seqno - 1 - start) (start + 1) ++ seqnos ((id, header) ∷ acc)
        ≡ ascending (header.seqno - start) (start + 1) ++ seqnos acc
  seqnos-step header id acc lo hi =
      let e : header.seqno - start ≡ suc (header.seqno - 1 - start) = omega arith in
      let f : header.seqno ≡ start + 1 + (header.seqno - 1 - start) = omega arith in
      rw e (
        ap (λ x. ascending (header.seqno - 1 - start) (start + 1) ++ x ∷ seqnos acc) f
        ∙ sym (ascending-append (header.seqno - 1 - start) (start + 1) (seqnos acc)))

  abbrev pub put : ℕ → ConsensusHeader → Visited → Visited
  put id header acc =
      if ltb start header.seqno && leb header.seqno end_ then (id, header) ∷ acc else acc

  -- One round, once its header is decoded.
  pub walk-step :
      (fuel id : ℕ) (header : ConsensusHeader) (acc : Visited)
      → header_at codec dir id ≡ ok header
      → walks (suc fuel) id acc ≡ (
          if leb header.seqno (add64 start 1)
          then some (ok (put id header acc))
          else walks fuel header.parent_id (put id header acc))
  unfolding walk
  walk-step fuel id header acc at = ground arith

  -- Where the walk ends at this header.
  seqnos-last :
      (header : ConsensusHeader) (id : ℕ) (acc : Visited)
      → header.seqno ≤ start + 1
      → seqnos (put id header acc)
        ≡ ascending (min header.seqno end_ - start) (start + 1) ++ seqnos acc
  seqnos-last header id acc low =
      elim (Bool-cases (ltb start header.seqno && leb header.seqno end_)) [
        | inl e ↦
            let at_one : min header.seqno end_ - start ≡ 1 = ground arith in
            let same : header.seqno ≡ start + 1 = ground arith in
            rw (e, at_one) (ap (λ x. x ∷ seqnos acc) same)
        | inr e ↦ let at_zero : min header.seqno end_ - start ≡ 0 = ground arith in rw (e, at_zero)
      ]

  -- Where it goes on to the parent.
  seqnos-more :
      (header : ConsensusHeader) (parent_seqno id : ℕ) (acc : Visited)
      → start + 1 < header.seqno
      → header.seqno ≡ parent_seqno + 1
      → ascending (min parent_seqno end_ - start) (start + 1) ++ seqnos (put id header acc)
        ≡ ascending (min header.seqno end_ - start) (start + 1) ++ seqnos acc
  seqnos-more header p id acc high next =
      elim (Bool-cases (ltb start header.seqno && leb header.seqno end_)) [
        | inl e ↦
            let before : min p end_ - start ≡ header.seqno - 1 - start = ground arith in
            let here : min header.seqno end_ - start ≡ header.seqno - start = ground arith in
            rw (e, before, here) (seqnos-step header id acc (ground arith) (ground arith))
        | inr e ↦
            let same : min p end_ - start ≡ min header.seqno end_ - start = ground arith in
            rw (e, same)
      ]

  -- Where the range is empty, the walk visits nothing.
  pub walk_nothing :
      (fuel id : ℕ) (acc r : Visited) → end_ ≤ start → walks fuel id acc ≡ some (ok r) → r ≡ acc
  unfolding walk
  walk_nothing zero id acc r none_ e = absurd (ground arith)
  walk_nothing (suc fuel) id acc r none_ e =
      let (header, at) = head_ok (suc fuel) id acc r e in
      let step = walk-step fuel id header acc at in
      let same : put id header acc ≡ acc = ground arith in
      elim (Bool-cases (leb header.seqno (add64 start 1))) [
        | inl low ↦ ground (arith, step, same)
        | inr high ↦ walk_nothing fuel header.parent_id acc r none_ (ground (arith, step, same))
      ]

  pub walk-seqnos :
      (fuel id : ℕ) (header : ConsensusHeader) (acc r : Visited)
      → Consecutive codec dir
      → start < u64_max
      → header_at codec dir id ≡ ok header
      → walks fuel id acc ≡ some (ok r)
      → seqnos r ≡ ascending (min header.seqno end_ - start) (start + 1) ++ seqnos acc
  unfolding walk
  walk-seqnos zero id header acc r con small at e = absurd (ground arith)
  walk-seqnos (suc fuel) id header acc r con small at e =
      let step = walk-step fuel id header acc at in
      elim (Bool-cases (leb header.seqno (add64 start 1))) [
        | inl low ↦
            let same : r ≡ put id header acc = ground (arith, step) in
            rw same (seqnos-last header id acc (ground arith))
        | inr high ↦
            let on : walks fuel header.parent_id (put id header acc) ≡ some (ok r) =
              ground (arith, step) in
            let (parent, found) = head_ok fuel header.parent_id (put id header acc) r on in
            walk-seqnos fuel header.parent_id parent (put id header acc) r con small found on
            ∙ seqnos-more header parent.seqno id acc (ground arith) (con id header parent at found)
      ]
