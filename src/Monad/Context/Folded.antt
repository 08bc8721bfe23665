-- ===== src/Monad/Context/Folded.antt =====
-- The chains that the walks over the headers of the ledger visit, and what the callbacks of a round
-- make of them.
use monad_fork.Prelude.{
  zero, suc, ◌+◌, ◌-◌, ◌<◌, ◌≡◌, refl, ◌∙◌, some, [], ◌∷◌, arith, ◌==◌, if◌then◌else◌, ℕ, min,
  subst, Bool, append-nil, u64_max, All,
}
use monad_fork.Ledger.{header_at, Codec, Disk}
use monad_fork.Ledger.Chain.{Chained, walk-Chained}
use monad_fork.Ledger.Fold.{fold}
use monad_fork.Ledger.Range.{
  Visited, collect, seqnos, ascending, Consecutive, walks, head_ok, walk-seqnos,
}
use monad_fork.Ledger.Keeps.{walk-keeps}
use monad_fork.Monad.Context.{Contents, Agrees}
use monad_fork.Monad.Reading.{has_executed, on_finalized, on_proposed}
use monad_fork.Monad.Context.Handled.{IsListed}
use monad_fork.Monad.Context.Linked.{IsChain, not_executed}
use monad_fork.Node.Externals.{History, Externals}
use monad_fork.Node.Outcome.{ok}
use monad_fork.Node.Block.{ConsensusHeader}

-- The parent of the first visited block; `otherwise` if there is none.
abbrev pub behind : Visited → ℕ → ℕ
behind [] otherwise = otherwise
behind ((id, header) ∷ rest) otherwise = header.parent_id

seqnos→IsChain :
    (ledger : Contents) (k n otherwise : ℕ) (r : Visited)
    → Chained r
    → seqnos r ≡ ascending k n
    → All (IsListed ledger) r
    → IsChain ledger (behind r otherwise) n r
seqnos→IsChain ledger k n otherwise [] chained e listed = tt
seqnos→IsChain ledger zero n otherwise ((id, header) ∷ rest) chained e listed =
    absurd (ground arith)
seqnos→IsChain ledger (suc k) n otherwise ((id, header) ∷ []) chained e listed =
    (listed.0, refl, ground arith, tt)
seqnos→IsChain ledger (suc k) n otherwise ((id, header) ∷ (id', header') ∷ rest) chained e listed =
    (
      listed.0,
      refl,
      ground arith,
      subst (λ x. IsChain ledger x (n + 1) ((id', header') ∷ rest)) chained.0
          (seqnos→IsChain ledger k (n + 1) otherwise ((id', header') ∷ rest) chained.1
            (ground arith) listed.1),
    )

module _ (codec : Codec) (ledger : Contents) (disk : Disk) (agrees : Agrees codec ledger disk)
    (start end_ fuel : ℕ) where
  pub walk-IsChain :
      (id otherwise : ℕ) (r : Visited)
      → Consecutive codec disk.headers
      → start < u64_max
      → walks codec disk.headers start end_ fuel id [] ≡ some (ok r)
      → IsChain ledger (behind r otherwise) (start + 1) r
  walk-IsChain id otherwise r con small e =
      let (header, at) = head_ok codec disk.headers start end_ fuel id [] r e in
      let k = min header.seqno end_ - start in
      let numbers : seqnos r ≡ ascending k (start + 1) =
        walk-seqnos codec disk.headers start end_ fuel id header [] r con small at e
        ∙ append-nil _ in
      let chained = walk-Chained codec disk.headers start end_ fuel id [] r con small e tt tt in
      let keeps =
        λ (i : ℕ) (hd : ConsensusHeader) (v v' : Visited)
            (found : header_at codec disk.headers i ≡ ok hd) (kept : All (IsListed ledger) v)
            (called : collect i hd v ≡ ok v').
          let same : (i, hd) ∷ v ≡ v' = ground arith in
          subst (λ x. All (IsListed ledger) x) same (agrees.0 i hd found, kept) in
      let listed =
        walk-keeps (λ v. All (IsListed ledger) v) codec disk.headers start end_ collect keeps fuel
          id [] r tt e in
      seqnos→IsChain ledger k (start + 1) otherwise r chained numbers listed

module _ (ext : Externals) (h : History) where
  abbrev pub executed : ℕ → ConsensusHeader → Bool
  executed id header = has_executed ext h header id

  pub on_finalized-fold :
      (r : Visited)
      → (fold (on_finalized ext h) r (record { to_execute = []; to_finalize = [] })).to_execute
        ≡ not_executed executed r
  unfolding on_finalized
  on_finalized-fold [] = refl
  on_finalized-fold ((id, header) ∷ rest) = ground (arith, on_finalized-fold rest)

  on_proposed-above :
      (ledger : Contents) (head last_finalized parent n : ℕ) (r : Visited)
      → last_finalized < u64_max
      → last_finalized + 1 < n
      → IsChain ledger parent n r
      → fold (on_proposed ext h head last_finalized) r [] ≡ not_executed executed r
  unfolding on_proposed
  on_proposed-above ledger head l parent n [] small above chain = refl
  on_proposed-above ledger head l parent n ((id, header) ∷ rest) small above chain =
      ground (arith, on_proposed-above ledger head l id (n + 1) rest small (omega arith) chain.3)

  -- The proposals stay if they are behind the finalized head, and are dropped otherwise.
  pub on_proposed-fold :
      (ledger : Contents) (head last_finalized parent : ℕ) (r : Visited)
      → last_finalized < u64_max
      → IsChain ledger parent (last_finalized + 1) r
      → fold (on_proposed ext h head last_finalized) r []
        ≡ (if head == behind r head then not_executed executed r else [])
  unfolding on_proposed
  on_proposed-fold ledger head l parent [] small chain = ground arith
  on_proposed-fold ledger head l parent ((id, header) ∷ rest) small chain =
      ground
        (arith, on_proposed-above ledger head l id (l + 1 + 1) rest small (omega arith) chain.3)
