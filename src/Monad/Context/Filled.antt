-- ===== src/Monad/Context/Filled.antt =====
-- Before the main loop the block cache is filled from the last finalized blocks.
use monad_fork.Monad.Cache.{BlockCacheEntry, BlockCache}
use monad_fork.Monad.Context.{IsSetOf, body_at, Contents, Agrees}
use monad_fork.Prelude.{
  ◌≡◌, refl, ◌∙◌, inl, inr, none, some, [], ◌∷◌, arith, ℕ, ap, subst, Option, List,
}
use monad_fork.Ledger.{Codec, Disk, read_body, header_at}
use monad_fork.Ledger.Keeps.{for_each_header-keeps}
use monad_fork.Monad.Start.{present_senders, on_cached, cache_start, warm_cache}
use monad_fork.Monad.Context.Cached.{IsFaithful, emplace-IsFaithful}
use monad_fork.Node.Views.{Outcome-cases}
use monad_fork.Node.Senders.{senders_and_authorities}
use monad_fork.Node.Externals.{History, Externals}
use monad_fork.Node.Outcome.{ok}
use monad_fork.Node.Block.{ConsensusHeader}
use monad_fork.Node.Senders.Laws.{sequence}

present_senders_lem :
    (recovered : List (Option ℕ)) (senders : List ℕ)
    → present_senders recovered ≡ ok senders
    → sequence recovered ≡ some senders
unfolding present_senders sequence
present_senders_lem [] senders e = ground arith
present_senders_lem (none ∷ recovered) senders e = absurd (ground arith)
present_senders_lem (some a ∷ recovered) senders e =
    elim (Outcome-cases (present_senders recovered)) [
      | inr bad ↦ absurd (ground arith)
      | inl (rest, q) ↦ ground (arith, present_senders_lem recovered rest q)
    ]

module _ (ext : Externals) (codec : Codec) (ledger : Contents) (fuel : ℕ) (disk : Disk)
    (agrees : Agrees codec ledger disk) where
  on_cached-IsFaithful :
      (id : ℕ) (header : ConsensusHeader) (cache cache' : BlockCache)
      → header_at codec disk.headers id ≡ ok header
      → IsFaithful ext ledger cache
      → on_cached ext codec disk.bodies id header cache ≡ ok cache'
      → IsFaithful ext ledger cache'
  unfolding on_cached
  on_cached-IsFaithful id header cache cache' at faithful e =
      elim (Outcome-cases (read_body codec disk.bodies header.block_body_id)) [
        | inr missing ↦ absurd (ground arith)
        | inl (body, found) ↦
            elim (Outcome-cases (present_senders (ext.recover_senders body.transactions))) [
              | inr bad ↦ absurd (ground arith)
              | inl (senders, all_) ↦
                  let listed : header ≡ ledger.header_of id = agrees.0 id header at in
                  let same : body ≡ body_at ledger id =
                    agrees.1 header.block_body_id body found
                    ∙ ap (λ x. ledger.body_of x.block_body_id) listed in
                  let txs = body.transactions in
                  let addresses = senders_and_authorities senders (ext.recover_authorities txs) in
                  let own : IsSetOf ext txs addresses =
                    (senders, present_senders_lem (ext.recover_senders txs) senders all_, refl) in
                  let entry : BlockCacheEntry = record {
                    block_number = header.seqno;
                    parent_id = header.parent_id;
                    senders_and_authorities = addresses;
                  } in
                  emplace-IsFaithful ext ledger cache cache' id entry faithful
                    (
                      ap (λ x. x.parent_id) listed,
                      subst (λ x. IsSetOf ext x.transactions addresses) same own,
                    )
                    (ground arith)
            ]
      ]

  pub warm_cache-IsFaithful :
      (h : History) (head : ℕ) (cache : BlockCache)
      → warm_cache ext codec fuel disk h ≡ some (ok (head, cache))
      → IsFaithful ext ledger cache
  unfolding warm_cache
  warm_cache-IsFaithful h head cache e =
      let last_finalized = ext.latest_finalized_version h in
      for_each_header-keeps (IsFaithful ext ledger) codec disk.headers (cache_start last_finalized)
        last_finalized (on_cached ext codec disk.bodies) on_cached-IsFaithful fuel
        disk.finalized_head [] head cache tt (ground arith)
