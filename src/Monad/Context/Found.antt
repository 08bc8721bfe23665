-- ===== src/Monad/Context/Found.antt =====
-- Both readings of a round, on a ledger whose finalized head is a finalized block.
use monad_fork.Monad.Context.Present.{IsNumbered}
use monad_fork.Prelude.{
  refl, ◌⊎◌, All, Option, List, ℕ, ◌+◌, ◌≡◌, ◌∙◌, inl, inr, some, [], ◌∷◌, arith, ◌==◌,
  if◌then◌else◌, sym, subst, Bool-cases, Option-cases, List-cases, ==_iff, ap,
}
use monad_fork.Ledger.Range.{seqnos, walks, Visited, Consecutive}
use monad_fork.Monad.Finalize.Laws.{blocks}
use monad_fork.Monad.Reading.Laws.{blocks-fold, read_proposed-to_finalize}
use monad_fork.Monad.Context.Folded.{
  behind, executed, walk-IsChain, on_finalized-fold, on_proposed-fold,
}
use monad_fork.Monad.Context.Linked.{not_executed, IsChain}
use monad_fork.Ledger.Fold.{total, fold, for_each_header-fold}
use monad_fork.Node.Block.{Bytes}
use monad_fork.Monad.Context.Readied.{
  IsFinal, IsFinalChain, IsReady, on_chain-IsLinked, proposals-IsLinked, finalized-IsChain,
}
use monad_fork.Ledger.{Codec, head_pointer_to_id}
use monad_fork.Ledger.Walk.{for_each_header}
use monad_fork.Monad.Context.{Contents}
use monad_fork.Monad.Reading.{
  ToExecute, Pending, Tick, on_finalized, on_proposed, read_proposed, read_ledger,
}
use monad_fork.Monad.Context.Listed.{AgreesAt}
use monad_fork.Monad.Context.Ready.{IsLinked}
use monad_fork.Node.Views.{Outcome-cases}
use monad_fork.Node.Externals.{History, Externals}
use monad_fork.Node.Outcome.{Outcome, ok}

-- The disk holds blocks of the ledger, of which a parent has the sequence number before its child's,
-- and its finalized head is a finalized block.
abbrev pub IsTick : Codec → Contents → (ℕ → ℕ) → Tick → Type 0
IsTick codec ledger final tick =
    AgreesAt codec ledger tick
    × Consecutive codec tick.at_finalized.headers
    × Consecutive codec tick.at_proposed.headers
    × ((id : ℕ)
        → head_pointer_to_id codec tick.at_finalized.finalized_head ≡ ok id
        → IsFinal ledger final id)

module _ (ext : Externals) (codec : Codec) (ledger : Contents) (final : ℕ → ℕ)
    (numbered : IsNumbered ledger) (finals : IsFinalChain ledger final) (fuel end_block_num : ℕ)
    (tick : Tick) (good : IsTick codec ledger final tick) (h : History) (known : List ℕ)
    (ready : IsReady ext codec ledger final numbered finals fuel end_block_num h known) where
  abbrev start : ℕ
  start = ext.latest_finalized_version h

  no_blocks :
      (r : Visited) (p : Pending)
      → p ≡ fold (on_finalized ext h) r (record { to_execute = []; to_finalize = [] })
      → p.to_finalize ≡ []
      → p.to_execute ≡ []
  unfolding on_finalized
  no_blocks [] p e f = ap (λ x. x.to_execute) e
  no_blocks (v ∷ rest) p e f = absurd (ground arith)

  -- The headers that the walk from the finalized head visits.
  visited-IsChain :
      (head : ℕ) (r : Visited)
      → IsFinal ledger final head
      → (r ≡ [])
        ⊎ (walks codec tick.at_finalized.headers start end_block_num fuel head [] ≡ some (ok r))
      → IsChain ledger (final start) (start + 1) r × All (λ v. IsFinal ledger final v.0) r
  visited-IsChain head r at (inl nothing) = (
    subst (IsChain ledger (final start) (start + 1)) (sym nothing) tt,
    subst (λ x. All (λ v. IsFinal ledger final v.0) x) (sym nothing) tt,
  )
  visited-IsChain head r at (inr w) =
      finalized-IsChain ext codec ledger final numbered finals fuel end_block_num h known
        tick.at_finalized head r ready good.0.0 good.1 at w

  read_finalized :
      (head : ℕ) (p : Pending)
      → for_each_header codec tick.at_finalized.headers start end_block_num
          (total codec tick.at_finalized.headers start end_block_num (on_finalized ext h))
          fuel
          tick.at_finalized.finalized_head
          (record { to_execute = []; to_finalize = [] })
        ≡ some (ok (head, p))
      → IsFinal ledger final head
        × IsLinked ledger known p.to_execute
        × (p.to_finalize ≡ [] → p.to_execute ≡ [])
  read_finalized head p e =
      let (r, link, same, visited) =
        for_each_header-fold codec tick.at_finalized.headers start end_block_num
          (on_finalized ext h) fuel tick.at_finalized.finalized_head _ head p e in
      let at : IsFinal ledger final head = good.3 head link in
      let (chain, finals_) = visited-IsChain head r at visited in
      let found : p.to_execute ≡ not_executed (executed ext h) r =
        ap (λ x. x.to_execute) same ∙ on_finalized-fold ext h r in
      (
        at,
        subst (IsLinked ledger known) (sym found) (
            on_chain-IsLinked ext codec ledger final numbered finals fuel end_block_num h known r
              ready chain),
        no_blocks r p same,
      )

  proposals :
      (head : ℕ) (p : Pending) (l : List ToExecute) (head' : ℕ)
      → IsFinal ledger final head
      → p.to_execute ≡ []
      → for_each_header codec tick.at_proposed.headers start end_block_num
          (total codec tick.at_proposed.headers start end_block_num (on_proposed ext h head start))
          fuel
          tick.at_proposed.proposed_head
          p.to_execute
        ≡ some (ok (head', l))
      → IsLinked ledger known l
  proposals head p l head' at empty e =
      let (r, link, same, visited) =
        for_each_header-fold codec tick.at_proposed.headers start end_block_num
          (on_proposed ext h head start) fuel tick.at_proposed.proposed_head p.to_execute head' l
          e in
      let chain : IsChain ledger (behind r head) (start + 1) r = elim visited [
        | inl nothing ↦ subst (λ x. IsChain ledger (behind x head) (start + 1) x) (sym nothing) tt
        | inr w ↦
            walk-IsChain codec ledger tick.at_proposed good.0.1 start end_block_num fuel head' head
              r good.2 ready.0 w
      ] in
      let folded : l ≡ (if head == behind r head then not_executed (executed ext h) r else []) =
        same
        ∙ ap (fold (on_proposed ext h head start) r) empty
        ∙ on_proposed-fold ext h ledger head start (behind r head) r ready.0 chain in
      elim (Bool-cases (head == behind r head)) [
        | inr foreign ↦
            let nothing : l ≡ [] = ground arith in subst (IsLinked ledger known) (sym nothing) tt
        | inl canonical ↦
            let up : behind r head ≡ head = sym ((==_iff head (behind r head)).0 canonical) in
            let found : l ≡ not_executed (executed ext h) r = ground arith in
            subst (IsLinked ledger known) (sym found) (
              proposals-IsLinked ext codec ledger final numbered finals fuel end_block_num h known
                head r ready at (subst (λ x. IsChain ledger x (start + 1) r) up chain))
      ]

  read_proposed-IsLinked :
      (head : ℕ) (p p' : Pending)
      → IsFinal ledger final head
      → IsLinked ledger known p.to_execute
      → (p.to_finalize ≡ [] → p.to_execute ≡ [])
      → read_proposed ext codec fuel end_block_num tick h start (head, p) ≡ some (ok p')
      → IsLinked ledger known p'.to_execute
  unfolding read_proposed
  read_proposed-IsLinked head p p' at linked none_ e = elim (List-cases p.to_finalize) [
    | inr (t, rest, busy) ↦
        let same : p ≡ p' = ground arith in
        subst (λ x. IsLinked ledger known x.to_execute) same linked
    | inl idle ↦
        let dir : ℕ → Option Bytes = tick.at_proposed.headers in
        let w : Option (Outcome (ℕ × List ToExecute)) =
          for_each_header codec dir start end_block_num
            (total codec dir start end_block_num (on_proposed ext h head start)) fuel
            tick.at_proposed.proposed_head p.to_execute in
        elim (Option-cases w) [
          | inl q ↦ absurd (ground arith)
          | inr (o, q) ↦ elim (Outcome-cases o) [
            | inr bad ↦ absurd (ground arith)
            | inl ((head', l), fine) ↦
                let same : l ≡ p'.to_execute = ground arith in
                subst (IsLinked ledger known) same
                  (proposals head p l head' at (none_ idle) (q ∙ ap some fine))
          ]
        ]
  ]

  -- The blocks that a round reads from the ledger can be executed in their order: each is not in the
  -- cache, and its parent and its grandparent are in the cache or in front of it, as far as its number
  -- asks for them. For this the cache must hold the blocks behind the latest finalized one that count
  -- as executed, and no others of them, the latest finalized block and the one before it; and the
  -- finalized head must be a finalized block. The proposals may be of any fork.
  pub read_ledger-IsLinked :
      (p : Pending)
      → read_ledger ext codec fuel end_block_num tick h ≡ some (ok p)
      → IsLinked ledger known p.to_execute
  unfolding read_ledger
  read_ledger-IsLinked p e =
      let dir : ℕ → Option Bytes = tick.at_finalized.headers in
      let w : Option (Outcome (ℕ × Pending)) =
        for_each_header codec dir start end_block_num
          (total codec dir start end_block_num (on_finalized ext h)) fuel
          tick.at_finalized.finalized_head (record { to_execute = []; to_finalize = [] }) in
      elim (Option-cases w) [
        | inl q ↦ absurd (ground arith)
        | inr (o, q) ↦ elim (Outcome-cases o) [
          | inr bad ↦ absurd (ground arith)
          | inl ((head, mid), fine) ↦
              let (at, linked, none_) = read_finalized head mid (q ∙ ap some fine) in
              read_proposed-IsLinked head mid p at linked none_ (ground arith)
        ]
      ]

  -- What a round finalizes is the finalized chain behind the latest finalized block, and what it
  -- executes then is that of it which is not executed yet.
  pub read_ledger-visited :
      (p : Pending)
      → read_ledger ext codec fuel end_block_num tick h ≡ some (ok p)
      → (p.to_finalize ≡ [])
        ⊎ ((r : Visited) × (blocks p.to_finalize ≡ seqnos r)
            × (p.to_execute ≡ not_executed (executed ext h) r)
            × IsChain ledger (final start) (start + 1) r
            × All (λ v. IsFinal ledger final v.0) r)
  unfolding read_ledger read_proposed
  read_ledger-visited p e =
      let dir : ℕ → Option Bytes = tick.at_finalized.headers in
      let w : Option (Outcome (ℕ × Pending)) =
        for_each_header codec dir start end_block_num
          (total codec dir start end_block_num (on_finalized ext h)) fuel
          tick.at_finalized.finalized_head (record { to_execute = []; to_finalize = [] }) in
      elim (List-cases p.to_finalize) [
        | inl idle ↦ inl idle
        | inr (t, ts, busy) ↦ elim (Option-cases w) [
          | inl q ↦ absurd (ground arith)
          | inr (o, q) ↦ elim (Outcome-cases o) [
            | inr bad ↦ absurd (ground arith)
            | inl ((head, mid), fine) ↦
                let (r, link, same, visited) =
                  for_each_header-fold codec dir start end_block_num (on_finalized ext h) fuel
                    tick.at_finalized.finalized_head _ head mid (q ∙ ap some fine) in
                let kept =
                  read_proposed-to_finalize ext codec fuel end_block_num tick h start head mid p
                    (ground arith) in
                let (chain, finals_) = visited-IsChain head r (good.3 head link) visited in
                let here : p ≡ mid = ground (arith, kept) in
                inr (
                  r,
                  ap (λ x. blocks x.to_finalize) (here ∙ same) ∙ blocks-fold ext h r _ refl,
                  ap (λ x. x.to_execute) (here ∙ same) ∙ on_finalized-fold ext h r,
                  chain,
                  finals_,
                )
          ]
        ]
      ]
