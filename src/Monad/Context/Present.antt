-- ===== src/Monad/Context/Present.antt =====
-- The asserts of propose_block on the block cache.
use monad_fork.Prelude.{
  ◌+◌, ◌<◌, ◌≡◌, refl, ◌∙◌, inl, inr, true, false, ◌||◌, none, some, [], ◌∷◌, arith, ◌==◌,
  if◌then◌else◌, ℕ, Bool, List, ltb, Bool-cases, sub64, ap,
}
use monad_fork.Monad.Propose.{
  cache_block, with_parent_hash, propose_args, propose_commit, execute_proposal, propose_block,
}
use monad_fork.Monad.Cache.{emplace, BlockCacheEntry, BlockCache, find, chain_context}
use monad_fork.Monad.Context.Attempted.{set_of}
use monad_fork.Monad.Context.Proposed.{own-IsEntry, IsNamed}
use monad_fork.Node.Externals.{
  History, ExecuteArgs, set_block_and_prefix, commit, record_evm_enter, record_evm_exit, Externals,
  execute,
}
use monad_fork.Monad.Validate.{validate_live_execution_outputs}
use monad_fork.Monad.Context.{RecoversAll, Contents, parent_at}
use monad_fork.Monad.Context.Cached.{IsFaithful, find-IsEntry}
use monad_fork.Node.Views.{Outcome-cases}
use monad_fork.Node.Senders.{collect_senders}
use monad_fork.Node.Outcome.{Outcome, ok, err, abort}
use monad_fork.Node.Block.{Bytes, BlockHeader, Block, AddressSet, ChainContext, ConsensusHeader}
use monad_fork.Node.Senders.Laws.{collect_senders_lem}

abbrev pub aborts {ℓ} : {A : Type ℓ} → Outcome A → Bool
aborts (ok a) = false
aborts (err e) = false
aborts abort = true

-- Of the functions of other libraries: they may return an error, and do not end the process.
pub record Lives (ext : Externals) : Type 0 where
  pub consensus_header :
      (header : ConsensusHeader) → aborts (ext.static_validate_consensus_header header) ≡ false
  pub header : (header : BlockHeader) → aborts (ext.static_validate_header header) ≡ false
  pub block : (rev : ℕ) (block : Block) → aborts (ext.static_validate_block rev block) ≡ false
  pub body :
      (rev : ℕ) (senders : List ℕ) (transactions : List Bytes)
      → aborts (ext.static_validate_monad_body rev senders transactions) ≡ false
  pub execution : (args : ExecuteArgs) (h : History) → aborts (ext.execute_block args h) ≡ false

abbrev pub is_known : List ℕ → ℕ → Bool
is_known [] id = false
is_known (key ∷ keys) id = key == id || is_known keys id

abbrev pub keys : BlockCache → List ℕ
keys [] = []
keys ((key, entry) ∷ cache) = key ∷ keys cache

-- Every block's number is its sequence number, and a parent has the one before.
pub record IsNumbered (ledger : Contents) : Type 0 where
  pub number :
      (id : ℕ) → (ledger.header_of id).execution_inputs.number ≡ (ledger.header_of id).seqno
  pub parent :
      (id : ℕ)
      → 0 < (ledger.header_of id).seqno
      → (ledger.header_of id).seqno ≡ (ledger.header_of (parent_at ledger id)).seqno + 1

-- The ids of the blocks that were committed.
abbrev pub ids : List (ℕ × ℕ) → List ℕ
ids [] = []
ids ((id, number_) ∷ rest) = id ∷ ids rest

-- The block is new, and its parent and its grandparent are known, as far as they are asked for.
abbrev pub IsPrepared : Contents → List ℕ → ℕ → ConsensusHeader → Type 0
IsPrepared ledger known id header =
    let n = header.execution_inputs.number in
    (is_known known id ≡ false)
    × (ltb 1 n ≡ true → is_known known header.parent_id ≡ true)
    × (ltb 2 n ≡ true → is_known known (parent_at ledger header.parent_id) ≡ true)

find_new : (cache : BlockCache) (id : ℕ) → is_known (keys cache) id ≡ false → find cache id ≡ none
unfolding find
find_new [] id e = refl
find_new ((key, entry) ∷ cache) id e = ground (arith, find_new cache id)

find_known :
    (cache : BlockCache) (id : ℕ)
    → is_known (keys cache) id ≡ true
    → (entry : BlockCacheEntry) × (find cache id ≡ some entry)
unfolding find
find_known [] id e = cc
find_known ((key, entry) ∷ cache) id e = elim (Bool-cases (key == id)) [
  | inl p ↦ rw p (entry, refl)
  | inr p ↦ rw p (find_known cache id (ground arith))
]

validate_live_execution_outputs_lives :
    (input output_ : BlockHeader) → aborts (validate_live_execution_outputs input output_) ≡ false
unfolding validate_live_execution_outputs
validate_live_execution_outputs_lives input output_ = ground arith

collect_senders_lives :
    (ext : Externals) (transactions : List Bytes)
    → RecoversAll ext
    → aborts (collect_senders transactions (ext.recover_senders transactions)) ≡ false
collect_senders_lives ext transactions recovers =
    let same =
      collect_senders_lem transactions (ext.recover_senders transactions) (recovers transactions) in
    ground (arith, same)

module _ (ext : Externals) (ledger : Contents) (lives : Lives ext) where
  chain_context_lives :
      (cache : BlockCache) (n parent : ℕ) (own : AddressSet)
      → IsFaithful ext ledger cache
      → (ltb 1 n ≡ true → is_known (keys cache) parent ≡ true)
      → (ltb 2 n ≡ true → is_known (keys cache) (parent_at ledger parent) ≡ true)
      → aborts (chain_context cache n parent own) ≡ false
  unfolding chain_context
  chain_context_lives cache n parent own faithful near far = elim (Bool-cases (ltb 1 n)) [
    | inr p ↦ ground arith
    | inl p ↦
        let (entry, q) = find_known cache parent (near p) in
        let at = find-IsEntry ext ledger cache parent entry faithful q in
        elim (Bool-cases (ltb 2 n)) [
          | inr r ↦ ground arith
          | inl r ↦
              let above : is_known (keys cache) entry.parent_id ≡ true =
                ap (is_known (keys cache)) at.0 ∙ far r in
              let (older, s) = find_known cache entry.parent_id above in ground arith
        ]
  ]

  module _ (rev block_id : ℕ) (header : ConsensusHeader) (block : Block)
      (is_first tracing : Bool) where
    execute_proposal_lives :
        (senders : List ℕ) (context : ChainContext) (h : History)
        → aborts
            (execute_proposal ext rev block_id header block is_first tracing senders context h).0
          ≡ false
    unfolding execute_proposal
    execute_proposal_lives senders context h =
        let prefix_ = if is_first then 0 else header.parent_id in
        let h₁ : History = set_block_and_prefix (sub64 block.header.number 1) prefix_ ∷ h in
        let input = with_parent_hash block (ext.block_hash (ext.read_eth_header h₁)) in
        let args = propose_args ext rev header input tracing senders context in
        let entered : History = record_evm_enter ∷ h₁ in
        elim (Outcome-cases (ext.execute_block args entered)) [
          | inr bad ↦ ground (arith, lives.execution args entered)
          | inl (results, good) ↦
              let stored : History =
                commit (propose_commit block_id input senders results)
                ∷ record_evm_exit
                ∷ execute args
                ∷ entered in
              ground (
                arith,
                validate_live_execution_outputs_lives input.header (ext.read_eth_header stored),
              )
        ]

    cache_block_new :
        (senders : List ℕ) (cache : BlockCache)
        → is_known (keys cache) block_id ≡ false
        → cache_block block_id header block (set_of ext block senders) cache
          ≡ ok (
              (
                block_id,
                record {
                  block_number = block.header.number;
                  parent_id = header.parent_id;
                  senders_and_authorities = set_of ext block senders;
                },
              )
              ∷ cache)
    unfolding cache_block emplace
    cache_block_new senders cache new_ = ground (arith, find_new cache block_id new_)

    -- A block that is new to the cache, and whose parent and grandparent are in it as far as they are
    -- asked for, is refused with an error or gets a result: no assert of propose_block fails.
    pub propose_block_lives :
        (cache : BlockCache) (h : History)
        → RecoversAll ext
        → IsNamed ext ledger rev block_id header block is_first tracing
        → IsFaithful ext ledger cache
        → block.header.number ≡ header.execution_inputs.number
        → IsPrepared ledger (keys cache) block_id header
        → aborts (propose_block ext rev block_id header block is_first tracing cache h).0 ≡ false
    unfolding propose_block
    propose_block_lives cache h recovers named faithful numbered (new_, near, far) =
        let n = block.header.number in
        let txs = block.transactions in
        let f₁ = lives.consensus_header header in
        let f₂ = lives.header block.header in
        let f₃ = lives.block rev block in
        elim (Outcome-cases (collect_senders txs (ext.recover_senders txs))) [
          | inr bad ↦ ground (arith, f₁, f₂, f₃, collect_senders_lives ext txs recovers)
          | inl (senders, p) ↦
              let f₄ = lives.body rev senders txs in
              let own = set_of ext block senders in
              let entry : BlockCacheEntry = record {
                block_number = n;
                parent_id = header.parent_id;
                senders_and_authorities = own;
              } in
              let cache' : BlockCache = (block_id, entry) ∷ cache in
              let stored = cache_block_new senders cache new_ in
              let here =
                own-IsEntry ext ledger rev block_id header block is_first tracing senders recovers
                  named p in
              let lives' =
                chain_context_lives cache' n header.parent_id own (here, faithful)
                  (λ e. ground (arith, near, numbered)) (λ e. ground (arith, far, numbered)) in
              elim (Outcome-cases (chain_context cache' n header.parent_id own)) [
                | inr bad ↦ ground (arith, f₁, f₂, f₃, f₄, stored, lives')
                | inl (context, r) ↦
                    ground (arith, f₁, f₂, f₃, f₄, stored, execute_proposal_lives senders context h)
              ]
        ]
