-- ===== src/Monad/Context/Readied.antt =====
-- What a round relies on to execute the blocks that it reads.
use monad_fork.Monad.Context.Present.{IsNumbered, is_known}
use monad_fork.Prelude.{
  refl, some, [], ◌∷◌, subst, u64_max, All, ◌+◌, ◌-◌, ◌<◌, ◌≡◌, ◌∙◌, true, arith, ℕ, sym, List, ap,
}
use monad_fork.Monad.Context.Folded.{executed, behind, walk-IsChain}
use monad_fork.Ledger.Range.{Visited, Consecutive, walks}
use monad_fork.Ledger.Keeps.{walk-All}
use monad_fork.Monad.Context.Ready.{IsLinked}
use monad_fork.Monad.Context.Linked.{IsChain, not_executed, Knows, chain-IsLinked, HasBase}
use monad_fork.Node.Externals.{History, Externals}
use monad_fork.Ledger.{Codec, Disk, header_at}
use monad_fork.Monad.Context.{Contents, Agrees, parent_at}
use monad_fork.Node.Outcome.{ok}
use monad_fork.Node.Block.{ConsensusHeader}

-- The blocks that consensus has finalized, by their numbers.
pub record IsFinalChain (ledger : Contents) (final : ℕ → ℕ) : Type 0 where
  pub seqno : (n : ℕ) → (ledger.header_of (final n)).seqno ≡ n
  pub parent : (n : ℕ) → parent_at ledger (final (n + 1)) ≡ final n

-- A head link names a finalized block.
abbrev pub IsFinal : Contents → (ℕ → ℕ) → ℕ → Type 0
IsFinal ledger final id = id ≡ final (ledger.header_of id).seqno

-- The latest finalized block and the one before it are known.
abbrev pub KnowsFinal : (ℕ → ℕ) → List ℕ → ℕ → Type 0
KnowsFinal final known last_finalized =
    (0 < last_finalized → is_known known (final last_finalized) ≡ true)
    × (1 < last_finalized → is_known known (final (last_finalized - 1)) ≡ true)

module _ (ext : Externals) (codec : Codec) (ledger : Contents) (final : ℕ → ℕ)
    (numbered : IsNumbered ledger) (finals : IsFinalChain ledger final)
    (fuel end_block_num : ℕ) where
  final-HasBase :
      (known : List ℕ) (last_finalized : ℕ)
      → KnowsFinal final known last_finalized
      → HasBase ledger numbered
          (λ id header. true)
          known
          (final last_finalized)
          (last_finalized + 1)
  final-HasBase known l (at, before) = (
    λ e. at (omega arith),
    λ e.
        let next : l ≡ l - 1 + 1 = omega arith in
        ap (λ x. is_known known (parent_at ledger (final x))) next
        ∙ ap (is_known known) (finals.parent (l - 1))
        ∙ before (omega arith),
  )

  pub IsFinal-step :
      (disk : Disk)
      → Agrees codec ledger disk
      → (id : ℕ) (header : ConsensusHeader) → header_at codec disk.headers id ≡ ok header
      → 0 < header.seqno
      → IsFinal ledger final id
      → IsFinal ledger final header.parent_id
  IsFinal-step disk agrees id header found pos at =
      let named = agrees.0 id header found in
      let n = header.seqno - 1 in
      let next : (ledger.header_of id).seqno ≡ n + 1 = omega (arith, ap (λ x. x.seqno) named) in
      let up : header.parent_id ≡ final n =
        ap (λ x. x.parent_id) named
        ∙ ap (parent_at ledger) (at ∙ ap final next)
        ∙ finals.parent n in
      up ∙ ap final (sym (ap (λ x. (ledger.header_of x).seqno) up ∙ finals.seqno n))

  behind_final :
      (n : ℕ) (r : Visited)
      → All (λ v. IsFinal ledger final v.0) r
      → IsChain ledger (behind r (final n)) (n + 1) r
      → behind r (final n) ≡ final n
  behind_final n [] at chain = refl
  behind_final n ((id, header) ∷ rest) at (named, above, seqno, chain) =
      let here : (ledger.header_of id).seqno ≡ n + 1 = ap (λ x. x.seqno) (sym named) ∙ seqno in
      ap (λ x. x.parent_id) named ∙ ap (parent_at ledger) (at.0 ∙ ap final here) ∙ finals.parent n

  module _ (h : History) (known : List ℕ) where
    abbrev pub last_final : ℕ
    last_final = ext.latest_finalized_version h

    -- What is known is what a round relies on.
    abbrev pub IsReady : Type 0
    IsReady =
        (last_final < u64_max)
        × Knows ledger numbered (executed ext h) known (last_final + 1)
        × KnowsFinal final known last_final

    pub on_chain-IsLinked :
        (r : Visited)
        → IsReady
        → IsChain ledger (final last_final) (last_final + 1) r
        → IsLinked ledger known (not_executed (executed ext h) r)
    on_chain-IsLinked r (small, knows, at) chain =
        chain-IsLinked ledger numbered (executed ext h) known (final last_final) (last_final + 1) r
          knows (final-HasBase known last_final at) chain

    pub proposals-IsLinked :
        (head : ℕ) (r : Visited)
        → IsReady
        → IsFinal ledger final head
        → IsChain ledger head (last_final + 1) r
        → IsLinked ledger known (not_executed (executed ext h) r)
    proposals-IsLinked head [] ready at chain = tt
    proposals-IsLinked head ((id, header) ∷ rest) ready at chain =
        let here : (ledger.header_of id).seqno ≡ last_final + 1 =
          ap (λ x. x.seqno) (sym chain.0) ∙ chain.2 in
        let up : parent_at ledger id ≡ head = ap (λ x. x.parent_id) (sym chain.0) ∙ chain.1 in
        let below : (ledger.header_of head).seqno ≡ last_final = omega (
          arith,
          here,
          numbered.parent id (omega (arith, here)),
          ap (λ x. (ledger.header_of x).seqno) up,
        ) in
        on_chain-IsLinked ((id, header) ∷ rest) ready (
          subst (λ x. IsChain ledger x (last_final + 1) ((id, header) ∷ rest)) (at ∙ ap final below)
            chain)

    pub finalized-IsChain :
        (disk : Disk) (head : ℕ) (r : Visited)
        → IsReady
        → Agrees codec ledger disk
        → Consecutive codec disk.headers
        → IsFinal ledger final head
        → walks codec disk.headers last_final end_block_num fuel head [] ≡ some (ok r)
        → IsChain ledger (final last_final) (last_final + 1) r
          × All (λ v. IsFinal ledger final v.0) r
    finalized-IsChain disk head r (small, knows, base) agrees con at e =
        let finalized =
          walk-All (IsFinal ledger final) codec disk.headers last_final end_block_num
            (IsFinal-step disk agrees) fuel head [] r small at tt e in
        let chain =
          walk-IsChain codec ledger disk agrees last_final end_block_num fuel head
            (final last_final) r con small e in
        (
          subst (λ x. IsChain ledger x (last_final + 1) r)
              (behind_final last_final r finalized chain) chain,
          finalized,
        )
