-- ===== src/Monad/Context/Ready.antt =====
-- The loop over to_execute, on blocks whose ancestors are at hand: where it can end the process.
use monad_fork.Monad.Context.Present.{aborts, Lives, keys, IsPrepared, propose_block_lives}
use monad_fork.Prelude.{
  ◌⊎◌, Bool-cases, ◌≡◌, refl, inl, inr, true, false, [], ◌∷◌, arith, ◌==◌, ℕ, sym, subst, Bool,
  Option, List, sub64, All, ap,
}
use monad_fork.Monad.Context.Grown.{handle-Adds}
use monad_fork.Node.Views.{Outcome-cases}
use monad_fork.Node.Outcome.{Outcome, ok}
use monad_fork.Monad.Cache.{BlockCache}
use monad_fork.Node.Externals.{History, record_block_qc, record_block_start, Externals}
use monad_fork.Ledger.{Codec, read_body}
use monad_fork.Monad.Validate.{validate_delayed_execution_results}
use monad_fork.Monad.Propose.{BlockExecOutput}
use monad_fork.Monad.Context.{RecoversAll, Contents}
use monad_fork.Monad.Reading.{ToExecute}
use monad_fork.Monad.Finalize.{execute_all}
use monad_fork.Monad.Handle.{
  block_of, record_result, block_start, propose_dispatch, handle_to_execute,
}
use monad_fork.Monad.Context.Cached.{IsFaithful}
use monad_fork.Monad.Context.Handled.{HasBodies, IsListed, block-IsNamed, handle-IsFaithful}
use monad_fork.Node.Block.{Bytes, ConsensusHeader, ConsensusBody}

-- Each block is new, and its parent and grandparent are known or stand in front of it.
abbrev pub IsLinked : Contents → List ℕ → List ToExecute → Type 0
IsLinked ledger known [] = Unit
IsLinked ledger known ((id, header) ∷ rest) =
    IsPrepared ledger known id header × IsLinked ledger (id ∷ known) rest

module _ (ext : Externals) (codec : Codec) (bodies : ℕ → Option Bytes) (start_block_num : ℕ)
    (tracing : Bool) (last_finalized : ℕ) where
  -- The calls up to the announcement of a block.
  abbrev pub announced : ToExecute → ConsensusBody → History → History
  announced (id, header) body h =
      let started : History = record_block_qc header last_finalized ∷ h in
      record_block_start (
        block_start id header body (ext.chain_hash header.parent_id (sub64 header.seqno 1) started))
      ∷ started

  -- What ends the process before a block goes to propose_block: its body cannot be read from the
  -- disk, its revision is unknown, or its delayed results are not those of the hash chain.
  abbrev pub IsBad : ToExecute → History → Type 0
  IsBad (id, header) h =
      (aborts (read_body codec bodies header.block_body_id) ≡ true)
      ⊎ (ext.has_monad_traits (ext.get_monad_revision header.execution_inputs.timestamp) ≡ false)
      ⊎ ((body : ConsensusBody) × (read_body codec bodies header.block_body_id ≡ ok body)
          × (validate_delayed_execution_results ext.block_hash
                (λ n. ext.chain_hash header.parent_id n (announced (id, header) body h))
                header.delayed_execution_results
              ≡ false))

  -- A block is bad when it has its turn; the ones in front of it were executed.
  abbrev pub MeetsBad : List ToExecute → BlockCache → History → Type 0
  MeetsBad [] cache h = ⊥
  MeetsBad ((id, header) ∷ rest) cache h =
      let done =
        handle_to_execute ext codec bodies start_block_num tracing last_finalized id header cache
          h in
      IsBad (id, header) h
      ⊎ ((cache' : BlockCache) × (done.0 ≡ ok cache') × MeetsBad rest cache' done.1)

module _ (ext : Externals) (codec : Codec) (ledger : Contents) (bodies : ℕ → Option Bytes)
    (start_block_num : ℕ) (tracing : Bool) (recovers : RecoversAll ext)
    (has : HasBodies codec ledger bodies) (lives : Lives ext) (last_finalized : ℕ) where
  abbrev Bad : ToExecute → History → Type 0
  Bad v h = IsBad ext codec bodies start_block_num tracing last_finalized v h

  module _ (id : ℕ) (header : ConsensusHeader) (cache : BlockCache)
      (listed : header ≡ ledger.header_of id) (faithful : IsFaithful ext ledger cache) where
    abbrev one_handled : History → Outcome BlockCache × History
    one_handled h =
        handle_to_execute ext codec bodies start_block_num tracing last_finalized id header cache h

    abbrev one_dispatched :
        ConsensusBody → History → Outcome (BlockExecOutput × BlockCache) × History
    one_dispatched body h =
        propose_dispatch ext codec bodies start_block_num tracing id header body cache h

    dispatch_lives :
        (body : ConsensusBody) (h : History)
        → read_body codec bodies header.block_body_id ≡ ok body
        → ext.has_monad_traits (ext.get_monad_revision header.execution_inputs.timestamp) ≡ true
        → IsPrepared ledger (keys cache) id header
        → aborts (one_dispatched body h).0 ≡ false
    unfolding propose_dispatch block_of
    dispatch_lives body h e known prepared =
        let rev = ext.get_monad_revision header.execution_inputs.timestamp in
        let is_first = header.execution_inputs.number == start_block_num in
        let named =
          block-IsNamed ext codec ledger bodies start_block_num tracing recovers has id header cache
            listed faithful body e in
        let block = block_of header body in
        ground (
          arith,
          known,
          propose_block_lives ext ledger lives rev id header block is_first tracing cache h recovers
              named faithful refl prepared,
        )

    -- The process ends in a block that is prepared only if the block is bad.
    handle-IsBad :
        (h : History)
        → IsPrepared ledger (keys cache) id header
        → aborts (one_handled h).0 ≡ true
        → Bad (id, header) h
    unfolding handle_to_execute record_result
    handle-IsBad h prepared e =
        elim (Bool-cases (aborts (read_body codec bodies header.block_body_id))) [
          | inl p ↦ inl p
          | inr p ↦ elim (Outcome-cases (read_body codec bodies header.block_body_id)) [
            | inr bad ↦ absurd (ground arith)
            | inl (body, found) ↦
                let rev = ext.get_monad_revision header.execution_inputs.timestamp in
                elim (Bool-cases (ext.has_monad_traits rev)) [
                  | inr q ↦ inr (inl q)
                  | inl known ↦
                      let at : History =
                        announced ext codec bodies start_block_num tracing last_finalized
                          (id, header) body h in
                      elim (Bool-cases (
                        validate_delayed_execution_results ext.block_hash
                          (λ n. ext.chain_hash header.parent_id n at)
                          header.delayed_execution_results)) [
                            | inr q ↦ inr (inr (body, found, q))
                            | inl valid ↦
                                absurd (ground (arith, dispatch_lives body at found known prepared))
                          ]
                ]
          ]
        ]

  -- When the loop over to_execute ends the process, it is at a bad block. For this each block is one
  -- of the ledger's, is new to the cache, and has its parent and its grandparent in the cache or in
  -- front of it in the list, as far as its number asks for them; the entries of the cache are those of
  -- the ledger's blocks; and the other libraries do not end the process.
  pub execute_all-MeetsBad :
      (l : List ToExecute) (cache : BlockCache) (h : History)
      → All (IsListed ledger) l
      → IsFaithful ext ledger cache
      → IsLinked ledger (keys cache) l
      → aborts (execute_all ext codec bodies start_block_num tracing last_finalized l cache h).0
        ≡ true
      → MeetsBad ext codec bodies start_block_num tracing last_finalized l cache h
  unfolding execute_all
  execute_all-MeetsBad [] cache h listed faithful linked e = absurd (ground arith)
  execute_all-MeetsBad ((id, header) ∷ rest) cache h (named, listed) faithful linked e =
      let done : Outcome BlockCache × History = one_handled id header cache named faithful h in
      elim (Outcome-cases done.0) [
        | inr bad ↦ inl (handle-IsBad id header cache named faithful h linked.0 (ground arith))
        | inl (cache', q) ↦
            let faithful' =
              handle-IsFaithful ext codec ledger bodies start_block_num tracing recovers has id
                header cache named faithful last_finalized h cache' q in
            let (entry, grown, dated, stored) =
              handle-Adds ext codec bodies start_block_num tracing id header cache last_finalized h
                cache' q in
            let known : keys cache' ≡ id ∷ keys cache = ap keys grown in
            let linked' = subst (λ k. IsLinked ledger k rest) (sym known) linked.1 in
            inr (
              cache',
              q,
              execute_all-MeetsBad rest cache' done.1 listed faithful' linked' (ground arith),
            )
      ]
