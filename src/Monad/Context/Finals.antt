-- ===== src/Monad/Context/Finals.antt =====
-- The blocks that a round finalizes, and the cache after its executions.
use monad_fork.Monad.Context.Present.{IsNumbered, is_known}
use monad_fork.Monad.Context.Linked.{not_executed, Knows, IsChain}
use monad_fork.Monad.Context.Pruned.{Contains, Grows}
use monad_fork.Monad.Context.Readied.{KnowsFinal, IsFinal}
use monad_fork.Prelude.{
  ◌+◌, ◌-◌, ◌≤◌, ◌≡◌, ◌∙◌, inl, inr, true, [], ◌∷◌, arith, if◌then◌else◌, ℕ, sym, subst, Bool, List,
  Bool-cases, All, ap,
}
use monad_fork.Ledger.Range.{Visited, seqnos}
use monad_fork.Monad.Context.{Contents}
use monad_fork.Monad.Finalize.Laws.{last_or}
use monad_fork.Node.Block.{ConsensusHeader}

module _ (ledger : Contents) (final : ℕ → ℕ) where
  pub visited-KnowsFinal :
      (known : List ℕ) (parent m : ℕ) (r : Visited)
      → KnowsFinal final known m
      → IsChain ledger parent (m + 1) r
      → All (λ v. IsFinal ledger final v.0) r
      → Contains known r
      → KnowsFinal final known (last_or m (seqnos r)) × (m ≤ last_or m (seqnos r))
  visited-KnowsFinal known parent m [] base chain at has = (base, omega arith)
  visited-KnowsFinal known parent m ((id, header) ∷ rest) base chain at has =
      let seqno : (ledger.header_of id).seqno ≡ m + 1 = ap (λ x. x.seqno) (sym chain.0) ∙ chain.2 in
      let here : is_known known (final (m + 1)) ≡ true =
        ap (is_known known) (sym (at.0 ∙ ap final seqno)) ∙ has.0 in
      let before : is_known known (final (m + 1 - 1)) ≡ is_known known (final m) =
        let same : m + 1 - 1 ≡ m = omega arith in ap (λ x. is_known known (final x)) same in
      let next : KnowsFinal final known (m + 1) =
        (λ pos. here, λ pos. before ∙ base.0 (omega arith)) in
      let (end_, above) = visited-KnowsFinal known id (m + 1) rest next chain.3 at.1 has.1 in
      let same : m + 1 ≡ header.seqno = sym chain.2 in
      (
        subst (λ x. KnowsFinal final known (last_or x (seqnos rest))) same end_,
        subst (λ x. m ≤ last_or x (seqnos rest)) same (omega (arith, above)),
      )

  -- What was executed before is in the cache, and so is what is executed now.
  pub visited-Contains :
      (numbered : IsNumbered ledger) (executed_ : ℕ → ConsensusHeader → Bool)
      (known known' : List ℕ) (parent n : ℕ) (r : Visited)
      → Knows ledger numbered executed_ known n
      → IsChain ledger parent n r
      → Grows known known'
      → Contains known' (not_executed executed_ r)
      → Contains known' r
  visited-Contains numbered executed_ known known' parent n [] knows chain monotone has = tt
  visited-Contains numbered executed_ known known' parent n ((id, header) ∷ rest) knows chain
        monotone has =
      let seqno : (ledger.header_of id).seqno ≡ n = ap (λ x. x.seqno) (sym chain.0) ∙ chain.2 in
      let next : Knows ledger numbered executed_ known (n + 1) = λ x above. knows x (omega arith) in
      elim (Bool-cases (executed_ id header)) [
        | inl old ↦
            let known_ : is_known known id ≡ true =
              sym (ap (executed_ id) chain.0 ∙ knows id (omega (arith, seqno))) ∙ old in
            let has' : Contains known' (not_executed executed_ rest) =
              subst
                (λ b. Contains known' (
                  if b
                  then not_executed executed_ rest
                  else (id, header) ∷ not_executed executed_ rest))
                old has in
            (
              monotone id known_,
              visited-Contains numbered executed_ known known' id (n + 1) rest next chain.3 monotone
                  has',
            )
        | inr new_ ↦
            let has' : Contains known' ((id, header) ∷ not_executed executed_ rest) =
              subst
                (λ b. Contains known' (
                  if b
                  then not_executed executed_ rest
                  else (id, header) ∷ not_executed executed_ rest))
                new_ has in
            (
              has'.0,
              visited-Contains numbered executed_ known known' id (n + 1) rest next chain.3 monotone
                  has'.1,
            )
      ]
