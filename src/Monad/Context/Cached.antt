-- ===== src/Monad/Context/Cached.antt =====
-- The entries of the block cache, against their blocks in the ledger.
use monad_fork.Prelude.{
  true, Option, refl, none, subst₂, ◌≡◌, inl, inr, some, [], ◌∷◌, arith, ◌==◌, ℕ, subst, ltb,
  Bool-cases, Option-cases, All,
}
use monad_fork.Monad.Context.{HasParents, Contents, body_at, IsSetOf}
use monad_fork.Monad.Cache.{
  BlockCacheEntry, BlockCache, find, emplace, is_old, erase_old, chain_context,
}
use monad_fork.Node.Externals.{Externals}
use monad_fork.Node.Outcome.{ok}
use monad_fork.Node.Block.{AddressSet, ChainContext}

module _ (ext : Externals) (ledger : Contents) where
  abbrev pub IsEntry : ℕ × BlockCacheEntry → Type 0
  IsEntry (id, entry) =
      (entry.parent_id ≡ (ledger.header_of id).parent_id)
      × IsSetOf ext (body_at ledger id).transactions entry.senders_and_authorities

  abbrev pub IsFaithful : BlockCache → Type 0
  IsFaithful cache = All IsEntry cache

  pub find-IsEntry :
      (cache : BlockCache) (id : ℕ) (entry : BlockCacheEntry)
      → IsFaithful cache
      → find cache id ≡ some entry
      → IsEntry (id, entry)
  unfolding find
  find-IsEntry [] id entry faithful e = absurd (ground arith)
  find-IsEntry ((key, first) ∷ cache) id entry (here, rest) e = elim (Bool-cases (key == id)) [
    | inl p ↦
        let name : key ≡ id = ground arith in
        let value : first ≡ entry = ground arith in subst₂ (λ k x. IsEntry (k, x)) name value here
    | inr p ↦ find-IsEntry cache id entry rest (ground arith)
  ]

  pub emplace-IsFaithful :
      (cache cache' : BlockCache) (id : ℕ) (entry : BlockCacheEntry)
      → IsFaithful cache
      → IsEntry (id, entry)
      → emplace cache id entry ≡ ok cache'
      → IsFaithful cache'
  unfolding emplace
  emplace-IsFaithful cache cache' id entry faithful here e = elim (Option-cases (find cache id)) [
    | inl p ↦
        let same : (id, entry) ∷ cache ≡ cache' = ground arith in
        subst IsFaithful same (here, faithful)
    | inr (old, p) ↦ absurd (ground arith)
  ]

  pub erase_old-IsFaithful :
      (last_finalized : ℕ) (cache : BlockCache)
      → IsFaithful cache
      → IsFaithful (erase_old last_finalized cache)
  unfolding erase_old
  erase_old-IsFaithful last_finalized [] faithful = tt
  erase_old-IsFaithful last_finalized ((id, entry) ∷ cache) (here, rest) =
      elim (Bool-cases (is_old last_finalized entry)) [
        | inl p ↦ rw p (erase_old-IsFaithful last_finalized cache rest)
        | inr p ↦ rw p (here, erase_old-IsFaithful last_finalized cache rest)
      ]

  -- What the context of a block with this number, parent and set should be.
  abbrev pub IsContext : ℕ → ℕ → AddressSet → ChainContext → Type 0
  IsContext number parent own context =
      HasParents ext ledger number parent context × (context.senders_and_authorities ≡ own)

  abbrev context_of : Option AddressSet → Option AddressSet → AddressSet → ChainContext
  context_of grandparent parent own = record {
    grandparent_senders_and_authorities = grandparent;
    parent_senders_and_authorities = parent;
    senders_and_authorities = own;
  }

  module _ (cache : BlockCache) (number parent : ℕ) (own : AddressSet) (context : ChainContext)
      (faithful : IsFaithful cache) (e : chain_context cache number parent own ≡ ok context) where
    behind_parent-IsContext :
        (entry : BlockCacheEntry)
        → ltb 1 number ≡ true
        → find cache parent ≡ some entry
        → IsContext number parent own context
    unfolding chain_context
    behind_parent-IsContext entry p q =
        let found = find-IsEntry cache parent entry faithful q in
        let addresses = entry.senders_and_authorities in
        elim (Bool-cases (ltb 2 number)) [
          | inr r ↦
              let same : context_of none (some addresses) own ≡ context = ground arith in
              subst (IsContext number parent own) same (((p, found.1), r), refl)
          | inl r ↦ elim (Option-cases (find cache entry.parent_id)) [
            | inl s ↦ absurd (ground arith)
            | inr (older, s) ↦
                let same : context_of (some older.senders_and_authorities) (some addresses) own
                    ≡ context =
                  ground arith in
                let at_parent = find-IsEntry cache entry.parent_id older faithful s in
                let grandparent =
                  subst
                    (λ id.
                      IsSetOf ext (body_at ledger id).transactions older.senders_and_authorities)
                    found.0 at_parent.1 in
                subst (IsContext number parent own) same (((p, found.1), (r, grandparent)), refl)
          ]
        ]

    pub chain_context-IsContext : IsContext number parent own context
    unfolding chain_context
    chain_context-IsContext = elim (Bool-cases (ltb 1 number)) [
      | inr p ↦
          let same : context_of none none own ≡ context = ground arith in
          subst (IsContext number parent own) same ((p, ground arith), refl)
      | inl p ↦ elim (Option-cases (find cache parent)) [
        | inl q ↦ absurd (ground arith)
        | inr (entry, q) ↦ behind_parent-IsContext entry p q
      ]
    ]
