-- ===== src/Monad/Context/Linked.antt =====
-- The order in which the blocks of a chain that are not executed yet come to their execution.
use monad_fork.Monad.Context.Present.{IsNumbered, IsPrepared, is_known}
use monad_fork.Monad.Context.{parent_at, Contents}
use monad_fork.Prelude.{
  ◌+◌, ◌≤◌, ◌<◌, ◌≡◌, ◌∙◌, inl, inr, true, false, [], ◌∷◌, arith, ◌==◌, if◌then◌else◌, ℕ, sym, Bool,
  List, Bool-cases, ==_iff, ap,
}
use monad_fork.Ledger.Range.{Visited}
use monad_fork.Monad.Reading.{ToExecute}
use monad_fork.Monad.Context.Ready.{IsLinked}
use monad_fork.Node.Block.{ConsensusHeader}

-- Blocks of the ledger, with the sequence numbers from `n` on, each behind the one in front of it.
abbrev pub IsChain : Contents → ℕ → ℕ → Visited → Type 0
IsChain ledger parent n [] = Unit
IsChain ledger parent n ((id, header) ∷ rest) =
    (header ≡ ledger.header_of id)
    × (header.parent_id ≡ parent)
    × (header.seqno ≡ n)
    × IsChain ledger id (n + 1) rest

abbrev pub not_executed : (ℕ → ConsensusHeader → Bool) → Visited → List ToExecute
not_executed executed [] = []
not_executed executed ((id, header) ∷ rest) =
    if executed id header
    then not_executed executed rest
    else (id, header) ∷ not_executed executed rest

module _ (ledger : Contents) (numbered : IsNumbered ledger)
    (executed : ℕ → ConsensusHeader → Bool) where
  -- From this sequence number on, the executed blocks are the known ones.
  abbrev pub Knows : List ℕ → ℕ → Type 0
  Knows known n =
      (id : ℕ)
      → n ≤ (ledger.header_of id).seqno
      → executed id (ledger.header_of id) ≡ is_known known id

  Knows-new :
      (known : List ℕ) (id n : ℕ)
      → (ledger.header_of id).seqno ≡ n
      → Knows known n
      → Knows (id ∷ known) (n + 1)
  Knows-new known id n here knows x above =
      let other : (id == x) ≡ false = elim (Bool-cases (id == x)) [
        | inr e ↦ e
        | inl e ↦
            let same : id ≡ x = (==_iff id x).0 e in
            let seqno = ap (λ i. (ledger.header_of i).seqno) same in absurd (omega (arith, seqno))
      ] in
      ground (arith, other, knows x (omega arith))

  -- The first block's parent and grandparent are known, as far as it asks for them.
  abbrev pub HasBase : List ℕ → ℕ → ℕ → Type 0
  HasBase known parent n =
      (1 < n → is_known known parent ≡ true)
      × (2 < n → is_known known (parent_at ledger parent) ≡ true)

  pub chain-IsLinked :
      (known : List ℕ) (parent n : ℕ) (visited : Visited)
      → Knows known n
      → HasBase known parent n
      → IsChain ledger parent n visited
      → IsLinked ledger known (not_executed executed visited)
  chain-IsLinked known parent n [] knows base chain = tt
  chain-IsLinked known parent n ((id, header) ∷ rest) knows base (named, above, at, chain) =
      let seqno : (ledger.header_of id).seqno ≡ n = ap (λ x. x.seqno) (sym named) ∙ at in
      let number : header.execution_inputs.number ≡ n =
        ap (λ x. x.execution_inputs.number) named ∙ numbered.number id ∙ seqno in
      let up : parent_at ledger id ≡ parent = ap (λ x. x.parent_id) (sym named) ∙ above in
      let same : executed id header ≡ is_known known id =
        ap (executed id) named ∙ knows id (omega (arith, seqno)) in
      elim (Bool-cases (executed id header)) [
        | inl old ↦
            let known_here : is_known known id ≡ true = sym same ∙ old in
            rw old (
              chain-IsLinked known id (n + 1) rest (λ x above'. knows x (omega arith))
                (λ _. known_here, λ far. ap (is_known known) up ∙ base.0 (omega arith)) chain)
        | inr new_ ↦
            let prepared : IsPrepared ledger known id header = (
              sym same ∙ new_,
              λ e. ap (is_known known) above ∙ base.0 (ground (arith, number)),
              λ e.
                  ap (λ x. is_known known (parent_at ledger x)) above
                  ∙ base.1 (ground (arith, number)),
            ) in
            rw new_ (
              prepared,
              chain-IsLinked (id ∷ known) id (n + 1) rest (Knows-new known id n seqno knows)
                  (λ _. ground arith, λ far. ground (arith, up, base.0 (omega arith))) chain,
            )
      ]
