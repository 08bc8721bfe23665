-- ===== src/Ledger/Ends.antt =====
-- The walk over headers ends.
use monad_fork.Prelude.{
  zero, suc, ◌<◌, ◌≡◌, refl, ◌≢◌, inl, inr, none, some, arith, ℕ, sym, subst, Option,
}
use monad_fork.Ledger.{Codec, header_at}
use monad_fork.Node.Block.{ConsensusHeader, Bytes}
use monad_fork.Ledger.Range.{Consecutive}
use monad_fork.Ledger.Walk.{continue_walk, handle_header, walk}
use monad_fork.Node.Views.{Outcome-cases}
use monad_fork.Node.Outcome.{Outcome, ok, err, abort, and_then}

module _ {S : Type 0} (codec : Codec) (dir : ℕ → Option Bytes) (start end_ : ℕ)
    (fn : ℕ → ConsensusHeader → S → Outcome S) where
  continue_walk-ends :
      (go_on : ℕ → S → Option (Outcome S)) (r : Outcome (Option ℕ × S))
      → ((next : ℕ) (s : S) → r ≡ ok (some next, s) → go_on next s ≢ none)
      → continue_walk go_on r ≢ none
  unfolding continue_walk
  continue_walk-ends go_on (ok (none, s)) h = λ p. cc
  continue_walk-ends go_on (ok (some next, s)) h = h next s refl
  continue_walk-ends go_on (err e) h = λ p. cc
  continue_walk-ends go_on abort h = λ p. cc

  -- The walk goes on only to the parent of a header that it has decoded.
  goes_on :
      (id next : ℕ) (s s' : S)
      → and_then
          (header_at codec dir id)
          (λ header. handle_header codec dir start end_ fn id header s)
        ≡ ok (some next, s')
      → (header : ConsensusHeader) × (header_at codec dir id ≡ ok header)
        × (header.parent_id ≡ next)
        × (0 < header.seqno)
  unfolding handle_header
  goes_on id next s s' e = elim (Outcome-cases (header_at codec dir id)) [
    | inr missing ↦ absurd (ground arith)
    | inl (header, found) ↦ (header, found, ground arith, ground arith)
  ]

  -- If sequence numbers go down by one from a block to its parent, a walk from a header with a
  -- sequence number below the fuel comes to an end, whatever the callback does.
  pub walk_ends :
      (fuel id : ℕ) (s : S)
      → Consecutive codec dir
      → ((header : ConsensusHeader) → header_at codec dir id ≡ ok header → header.seqno < fuel)
      → 0 < fuel
      → walk codec dir start end_ fn fuel id s ≢ none
  unfolding walk
  walk_ends zero id s con bound pos = absurd (omega arith)
  walk_ends (suc fuel) id s con bound pos =
      continue_walk-ends (walk codec dir start end_ fn fuel) _ λ next s' e.
        let (header, found, here, above) = goes_on id next s s' e in
        walk_ends fuel next s' con
          (λ parent at. omega (
            arith,
            con id header parent found
                (subst (λ x. header_at codec dir x ≡ ok parent) (sym here) at),
            bound header found,
          ))
          (omega (arith, bound header found))
