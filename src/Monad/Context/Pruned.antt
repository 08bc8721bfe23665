-- ===== src/Monad/Context/Pruned.antt =====
-- What the cache keeps over the loop over to_execute and over its pruning.
use monad_fork.Monad.Context.Kept.{IsNumberedBy, Keeps-new, IsDated, Keeps}
use monad_fork.Monad.Validate.Laws.{numbers}
use monad_fork.Monad.Context.Present.{IsNumbered, ids, keys, is_known}
use monad_fork.Node.Outcome.{Outcome, ok}
use monad_fork.Node.Externals.{History, Externals}
use monad_fork.Monad.Cache.{BlockCache, is_old, erase_old}
use monad_fork.Prelude.{
  ◌+◌, ◌-◌, ◌≤◌, ◌≡◌, ◌∙◌, inl, inr, true, [], ◌∷◌, arith, ◌==◌, ℕ, sym, subst, subst₂, Bool,
  Option, List, Bool-cases, ==_iff, All, ap,
}
use monad_fork.Ledger.{Codec}
use monad_fork.Monad.Context.{Contents}
use monad_fork.Monad.Reading.{ToExecute}
use monad_fork.Monad.Finalize.{execute_all}
use monad_fork.Monad.Handle.{handle_to_execute}
use monad_fork.Monad.Context.Grown.{handle-Adds}
use monad_fork.Monad.Context.Readied.{IsFinalChain, KnowsFinal}
use monad_fork.Monad.Context.Handled.{IsListed}
use monad_fork.Node.Views.{committed, Outcome-cases}
use monad_fork.Node.Block.{Bytes}

abbrev pub Contains : List ℕ → List ToExecute → Type 0
Contains known l = All (λ v. is_known known v.0 ≡ true) l

abbrev pub Grows : List ℕ → List ℕ → Type 0
Grows known known' = (x : ℕ) → is_known known x ≡ true → is_known known' x ≡ true

module _ (ext : Externals) (codec : Codec) (ledger : Contents) (final : ℕ → ℕ)
    (numbered : IsNumbered ledger) (bodies : ℕ → Option Bytes) (start_block_num : ℕ)
    (tracing : Bool) (last_finalized : ℕ) where
  pub execute_all-Keeps :
      (l : List ToExecute) (cache : BlockCache) (h : History) (cache' : BlockCache)
      → let r = execute_all ext codec bodies start_block_num tracing last_finalized l cache h in
        All (IsListed ledger) l
        → Keeps ledger final last_finalized (ids (committed h)) cache
        → IsNumberedBy ledger (committed h)
        → r.0 ≡ ok cache'
        → Keeps ledger final last_finalized (ids (committed r.1)) cache'
          × Grows (keys cache) (keys cache')
          × Contains (keys cache') l
          × IsNumberedBy ledger (committed r.1)
  unfolding execute_all
  execute_all-Keeps [] cache h cache' listed kept numbers e =
      let same : cache ≡ cache' = ground arith in
      (
        subst (Keeps ledger final last_finalized (ids (committed h))) same kept,
        λ x known. ap (λ c. is_known (keys c) x) (sym same) ∙ known,
        tt,
        numbers,
      )
  execute_all-Keeps ((id, header) ∷ rest) cache h cache' (first, listed) kept numbers e =
      let done : Outcome BlockCache × History =
        handle_to_execute ext codec bodies start_block_num tracing last_finalized id header cache
          h in
      elim (Outcome-cases done.0) [
        | inr bad ↦ absurd (ground arith)
        | inl (mid, q) ↦
            let (entry, grown, dated, more) =
              handle-Adds ext codec bodies start_block_num tracing id header cache last_finalized h
                mid q in
            let here : entry.block_number ≡ (ledger.header_of id).seqno =
              dated ∙ ap (λ x. x.execution_inputs.number) first ∙ numbered.number id in
            let kept' =
              subst₂ (λ i c. Keeps ledger final last_finalized i c) (sym (ap ids more)) (sym grown)
                (Keeps-new ledger final last_finalized (ids (committed h)) cache id entry here
                  kept) in
            let number : header.execution_inputs.number ≡ (ledger.header_of id).seqno =
              ap (λ x. x.execution_inputs.number) first ∙ numbered.number id in
            let numbers' = subst (IsNumberedBy ledger) (sym more) (number, numbers) in
            let (end_, grows, has, stored) =
              execute_all-Keeps rest mid done.1 cache' listed kept' numbers' (ground arith) in
            let keys_mid : keys mid ≡ id ∷ keys cache = ap keys grown in
            (
              subst (λ h'. Keeps ledger final last_finalized (ids (committed h')) cache')
                  (ground arith) end_,
              λ x known. grows x (ap (λ k. is_known k x) keys_mid ∙ ground arith),
              (grows id (ap (λ k. is_known k id) keys_mid ∙ ground arith), has),
              subst (λ h'. IsNumberedBy ledger (committed h')) (ground arith) stored,
            )
      ]

-- Pruning keeps what is not older than the block before the latest finalized one.
module _ (ledger : Contents) (n : ℕ) where
  erase_old-known :
      (cache : BlockCache) (id : ℕ)
      → All (IsDated ledger) cache
      → n ≤ (ledger.header_of id).seqno + 1
      → is_known (keys cache) id ≡ true
      → is_known (keys (erase_old n cache)) id ≡ true
  unfolding erase_old is_old
  erase_old-known [] id dated above e = cc
  erase_old-known ((key, entry) ∷ cache) id (here, dated) above e = elim (Bool-cases (key == id)) [
    | inl p ↦
        let same : key ≡ id = (==_iff key id).0 p in
        let fresh_ : entry.block_number ≡ (ledger.header_of id).seqno =
          here ∙ ap (λ x. (ledger.header_of x).seqno) same in
        ground (arith, fresh_)
    | inr p ↦ ground (arith, erase_old-known cache id dated above)
  ]

  erase_old-only :
      (cache : BlockCache) (id : ℕ)
      → is_known (keys (erase_old n cache)) id ≡ true
      → is_known (keys cache) id ≡ true
  unfolding erase_old
  erase_old-only [] id e = e
  erase_old-only ((key, entry) ∷ cache) id e = ground (arith, erase_old-only cache id)

  erase_old-IsDated :
      (cache : BlockCache) → All (IsDated ledger) cache → All (IsDated ledger) (erase_old n cache)
  unfolding erase_old
  erase_old-IsDated [] dated = tt
  erase_old-IsDated ((key, entry) ∷ cache) (here, dated) = elim (Bool-cases (is_old n entry)) [
    | inl e ↦ rw e (erase_old-IsDated cache dated)
    | inr e ↦ rw e (here, erase_old-IsDated cache dated)
  ]

  pub erase_old-Keeps :
      (final : ℕ → ℕ) (finals : IsFinalChain ledger final) (last_finalized : ℕ)
      (executed_ids : List ℕ) (cache : BlockCache)
      → last_finalized ≤ n
      → KnowsFinal final (keys cache) n
      → Keeps ledger final last_finalized executed_ids cache
      → Keeps ledger final n executed_ids (erase_old n cache)
  erase_old-Keeps final finals l executed_ids cache higher (at, before) (kept, only, old, dated) = (
    λ id e above. erase_old-known cache id dated above (kept id e (omega arith)),
    λ id e above. only id (erase_old-only cache id e) (omega arith),
    (
      λ pos. erase_old-known cache (final n) dated (omega (arith, finals.seqno n)) (at pos),
      λ pos.
          erase_old-known cache (final (n - 1)) dated (omega (arith, finals.seqno (n - 1)))
            (before pos),
    ),
    erase_old-IsDated cache dated,
  )
