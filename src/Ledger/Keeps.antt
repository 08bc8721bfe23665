-- ===== src/Ledger/Keeps.antt =====
-- Predicates over a walk over consensus headers.
use monad_fork.Ledger.Range.{put, walks, Visited, head_ok, walk-step}
use monad_fork.Prelude.{
  All, ◌<◌, ◌&&◌, ltb, leb, u64_max, add64, suc, ◌≡◌, inl, inr, some, arith, ◌==◌, ℕ, subst, Option,
  Bool-cases, Option-cases, zero,
}
use monad_fork.Ledger.{Codec, head_pointer_to_id, header_at}
use monad_fork.Ledger.Walk.{in_range, handle_header, walk, for_each_header}
use monad_fork.Node.Views.{Outcome-cases}
use monad_fork.Node.Outcome.{Outcome, ok}
use monad_fork.Node.Block.{Bytes, ConsensusHeader}

module _ {S : Type 0} (P : S → Type 0) (codec : Codec) (dir : ℕ → Option Bytes) (start end_ : ℕ)
    (fn : ℕ → ConsensusHeader → S → Outcome S)
    (keeps : (id : ℕ) (header : ConsensusHeader) (s s' : S)
      → header_at codec dir id ≡ ok header
      → P s
      → fn id header s ≡ ok s'
      → P s') where
  handle_header-keeps :
      (id : ℕ) (header : ConsensusHeader) (s : S) (next : Option ℕ) (s' : S)
      → header_at codec dir id ≡ ok header
      → P s
      → handle_header codec dir start end_ fn id header s ≡ ok (next, s')
      → P s'
  unfolding handle_header
  handle_header-keeps id header s next s' at p e = elim (Bool-cases (in_range header start end_)) [
    | inr out ↦ let same : s ≡ s' = ground arith in subst P same p
    | inl in_ ↦ elim (Outcome-cases (fn id header s)) [
      | inr bad ↦ absurd (ground arith)
      | inl (s'', called) ↦
          let same : s'' ≡ s' = ground arith in subst P same (keeps id header s s'' at p called)
    ]
  ]

  pub walk-keeps :
      (fuel id : ℕ) (s s' : S) → P s → walk codec dir start end_ fn fuel id s ≡ some (ok s') → P s'
  unfolding walk
  walk-keeps zero id s s' p e = absurd (ground arith)
  walk-keeps (suc fuel) id s s' p e = elim (Outcome-cases (header_at codec dir id)) [
    | inr missing ↦ absurd (ground arith)
    | inl (header, at) ↦ elim (Outcome-cases (handle_header codec dir start end_ fn id header s)) [
      | inr bad ↦ absurd (ground arith)
      | inl ((next, mid), handled) ↦
          let kept = handle_header-keeps id header s next mid at p handled in
          elim (Option-cases next) [
            | inl last ↦ let same : mid ≡ s' = ground arith in subst P same kept
            | inr (id', more) ↦ walk-keeps fuel id' mid s' kept (ground arith)
          ]
    ]
  ]

  pub for_each_header-keeps :
      (fuel : ℕ) (head : Option Bytes) (s : S) (head_id : ℕ) (s' : S)
      → P s
      → for_each_header codec dir start end_ fn fuel head s ≡ some (ok (head_id, s'))
      → P s'
  unfolding for_each_header
  for_each_header-keeps fuel head s head_id s' p e =
      elim (Outcome-cases (head_pointer_to_id codec head)) [
        | inr bad ↦ absurd (ground arith)
        | inl (id, link) ↦ elim (Bool-cases (id == 0)) [
          | inl none_ ↦ let same : s ≡ s' = ground arith in subst P same p
          | inr some_ ↦ walk-keeps fuel id s s' p (ground arith)
        ]
      ]

-- The ids that a walk stands on have what its first id has and every parent takes over.
module _ (At : ℕ → Type 0) (codec : Codec) (dir : ℕ → Option Bytes) (start end_ : ℕ)
    (step : (id : ℕ) (header : ConsensusHeader)
      → header_at codec dir id ≡ ok header
      → 0 < header.seqno
      → At id
      → At header.parent_id) where
  put-All :
      (id : ℕ) (header : ConsensusHeader) (acc : Visited)
      → At id
      → All (λ v. At v.0) acc
      → All (λ v. At v.0) (put codec dir start end_ id header acc)
  put-All id header acc at all_ =
      elim (Bool-cases (ltb start header.seqno && leb header.seqno end_)) [
        | inl e ↦ rw e (at, all_)
        | inr e ↦ rw e all_
      ]

  pub walk-All :
      (fuel id : ℕ) (acc r : Visited)
      → start < u64_max
      → At id
      → All (λ v. At v.0) acc
      → walks codec dir start end_ fuel id acc ≡ some (ok r)
      → All (λ v. At v.0) r
  unfolding walk
  walk-All zero id acc r small at all_ e = absurd (ground arith)
  walk-All (suc fuel) id acc r small at all_ e =
      let (header, found) = head_ok codec dir start end_ (suc fuel) id acc r e in
      let once = walk-step codec dir start end_ fuel id header acc found in
      let kept : All (λ v. At v.0) (put codec dir start end_ id header acc) =
        put-All id header acc at all_ in
      elim (Bool-cases (leb header.seqno (add64 start 1))) [
        | inl low ↦
            let same : put codec dir start end_ id header acc ≡ r = ground (arith, once) in
            subst (λ x. All (λ v. At v.0) x) same kept
        | inr high ↦
            let on : walks codec dir start end_ fuel header.parent_id
                  (put codec dir start end_ id header acc)
                ≡ some (ok r) =
              ground (arith, once) in
            walk-All fuel header.parent_id (put codec dir start end_ id header acc) r small
              (step id header found (ground arith) at) kept on
      ]
