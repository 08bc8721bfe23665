-- ===== src/Ledger/Fold.antt =====
-- A callback that never aborts makes of the state what it makes of the visited headers, one by one.
use monad_fork.Prelude.{
  ◌⊎◌, ◌==◌, Bool-cases, Option-cases, zero, suc, ◌≡◌, refl, inl, inr, none, some, [], ◌∷◌, arith,
  ℕ, Option,
}
use monad_fork.Ledger.{head_pointer_to_id, Codec, header_at}
use monad_fork.Ledger.Walk.{for_each_header, walk}
use monad_fork.Node.Block.{ConsensusHeader, Bytes}
use monad_fork.Ledger.Range.{Visited, collect}
use monad_fork.Node.Views.{Outcome-cases}
use monad_fork.Node.Outcome.{Outcome, ok, err, abort}

module _ {S : Type 0} (g : ℕ → ConsensusHeader → S → S) where
  abbrev pub fold : Visited → S → S
  fold [] s = s
  fold ((id, header) ∷ visited) s = g id header (fold visited s)

abbrev pub mapped : {A B : Type 0} → (A → B) → Option (Outcome A) → Option (Outcome B)
mapped f none = none
mapped f (some (ok a)) = some (ok (f a))
mapped f (some (err e)) = some (err e)
mapped f (some abort) = some abort

module _ {S : Type 0} (codec : Codec) (dir : ℕ → Option Bytes) (start end_ : ℕ)
    (g : ℕ → ConsensusHeader → S → S) where
  abbrev pub total : ℕ → ConsensusHeader → S → Outcome S
  total id header s = ok (g id header s)

  pub walk-fold :
      (fuel id : ℕ) (visited : Visited) (s : S)
      → walk codec dir start end_ total fuel id (fold g visited s)
        ≡ mapped (λ r. fold g r s) (walk codec dir start end_ collect fuel id visited)
  unfolding walk
  walk-fold zero id visited s = refl
  walk-fold (suc fuel) id visited s = elim (Outcome-cases (header_at codec dir id)) [
    | inr missing ↦ ground arith
    | inl (header, found) ↦ ground (
      arith,
      walk-fold fuel header.parent_id visited s,
      walk-fold fuel header.parent_id ((id, header) ∷ visited) s,
    )
  ]

  -- What for_each_header makes of the state, by the headers that it visits.
  pub for_each_header-fold :
      (fuel : ℕ) (head : Option Bytes) (s : S) (head_id : ℕ) (s' : S)
      → for_each_header codec dir start end_ total fuel head s ≡ some (ok (head_id, s'))
      → (r : Visited) × (head_pointer_to_id codec head ≡ ok head_id)
        × (s' ≡ fold g r s)
        × ((r ≡ []) ⊎ (walk codec dir start end_ collect fuel head_id [] ≡ some (ok r)))
  unfolding for_each_header
  for_each_header-fold fuel head s head_id s' e =
      elim (Outcome-cases (head_pointer_to_id codec head)) [
        | inr bad ↦ absurd (ground arith)
        | inl (id, link) ↦ elim (Bool-cases (id == 0)) [
          | inl zero_id ↦ ([], ground arith, ground arith, inl refl)
          | inr nonzero ↦
              let w : Option (Outcome Visited) = walk codec dir start end_ collect fuel id [] in
              let folded = walk-fold fuel id [] s in
              elim (Option-cases w) [
                | inl q ↦ absurd (ground (arith, folded))
                | inr (o, q) ↦ elim (Outcome-cases o) [
                  | inr bad ↦ absurd (ground (arith, folded))
                  | inl (r, good) ↦ (
                    r,
                    ground (arith, folded),
                    ground (arith, folded),
                    inr (ground (arith, folded)),
                  )
                ]
              ]
        ]
      ]
