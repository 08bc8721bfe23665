-- ===== src/Monad/Context/Kept.antt =====
-- What the block cache holds over the rounds, beside the right sets.
use monad_fork.Prelude.{
  Bool-cases, inl, inr, ◌&&◌, ◌||◌, [], ◌==◌, ap, ==_iff, ◌+◌, ◌≤◌, ◌<◌, ◌≡◌, refl, ◌∙◌, true,
  false, ◌∷◌, arith, ℕ, sym, Bool, List, u64_max, All,
}
use monad_fork.Monad.Validate.Laws.{numbers}
use monad_fork.Monad.Context.Present.{IsNumbered, ids, is_known, keys}
use monad_fork.Ledger.{Codec}
use monad_fork.Monad.Context.{Contents}
use monad_fork.Monad.Cache.{BlockCacheEntry, BlockCache}
use monad_fork.Monad.Context.Readied.{IsFinalChain, KnowsFinal, IsReady}
use monad_fork.Node.Views.{committed}
use monad_fork.Node.Externals.{History, Externals}

-- Whether a block was committed under an id with a number.
abbrev pub is_stored : List (ℕ × ℕ) → ℕ → ℕ → Bool
is_stored [] id n = false
is_stored ((key, number_) ∷ rest) id n = (key == id && number_ == n) || is_stored rest id n

-- The blocks were committed with their sequence numbers.
abbrev pub IsNumberedBy : Contents → List (ℕ × ℕ) → Type 0
IsNumberedBy ledger stored = All (λ p. p.1 ≡ (ledger.header_of p.0).seqno) stored

-- Behind the latest finalized block, the database has at a version exactly the proposals that were
-- committed with this number: when it is opened it is rewound to the latest finalized block.
abbrev pub CountsExecuted : Externals → Type 0
CountsExecuted ext =
    (h : History) (id n : ℕ)
    → ext.latest_finalized_version h < n
    → ext.has_proposal id n h ≡ is_stored (committed h) id n

abbrev pub IsDated : Contents → ℕ × BlockCacheEntry → Type 0
IsDated ledger (id, entry) = entry.block_number ≡ (ledger.header_of id).seqno

-- The cache holds the blocks that were executed, from the one before the latest finalized block on,
-- that one and the latest finalized block; behind it, it holds no others.
abbrev pub Keeps : Contents → (ℕ → ℕ) → ℕ → List ℕ → BlockCache → Type 0
Keeps ledger final last_finalized executed_ids cache =
    ((id : ℕ)
      → is_known executed_ids id ≡ true
      → last_finalized ≤ (ledger.header_of id).seqno + 1
      → is_known (keys cache) id ≡ true)
    × ((id : ℕ)
        → is_known (keys cache) id ≡ true
        → last_finalized < (ledger.header_of id).seqno
        → is_known executed_ids id ≡ true)
    × KnowsFinal final (keys cache) last_finalized
    × All (IsDated ledger) cache

eq_of_iff : (a b : Bool) → (a ≡ true → b ≡ true) → (b ≡ true → a ≡ true) → a ≡ b
eq_of_iff false false f g = refl
eq_of_iff false true f g = g refl
eq_of_iff true false f g = sym (f refl)
eq_of_iff true true f g = refl

is_stored-ids :
    (ledger : Contents) (id : ℕ) (stored : List (ℕ × ℕ))
    → IsNumberedBy ledger stored
    → is_stored stored id (ledger.header_of id).seqno ≡ is_known (ids stored) id
is_stored-ids ledger id [] numbers = refl
is_stored-ids ledger id ((key, n) ∷ rest) (here, numbers) = elim (Bool-cases (key == id)) [
  | inl e ↦
      let same : key ≡ id = (==_iff key id).0 e in
      let at : n ≡ (ledger.header_of id).seqno = here ∙ ap (λ x. (ledger.header_of x).seqno) same in
      ground (arith, at)
  | inr e ↦ ground (arith, is_stored-ids ledger id rest numbers)
]

module _ (ext : Externals) (codec : Codec) (ledger : Contents) (final : ℕ → ℕ)
    (numbered : IsNumbered ledger) (finals : IsFinalChain ledger final) (fuel end_block_num : ℕ)
    (counts : CountsExecuted ext) where
  pub Keeps-IsReady :
      (h : History) (cache : BlockCache)
      → ext.latest_finalized_version h < u64_max
      → Keeps ledger final (ext.latest_finalized_version h) (ids (committed h)) cache
      → IsNumberedBy ledger (committed h)
      → IsReady ext codec ledger final numbered finals fuel end_block_num h (keys cache)
  Keeps-IsReady h cache small (kept, only, at, dated) numbers = (
    small,
    λ id above.
        counts h id (ledger.header_of id).seqno (omega arith)
        ∙ is_stored-ids ledger id (committed h) numbers
        ∙ eq_of_iff (is_known (ids (committed h)) id) (is_known (keys cache) id)
            (λ e. kept id e (omega arith)) (λ e. only id e (omega arith)),
    at,
  )

-- One more block is executed and put into the cache.
pub Keeps-new :
    (ledger : Contents) (final : ℕ → ℕ) (last_finalized : ℕ) (executed_ids : List ℕ)
    (cache : BlockCache) (id : ℕ) (entry : BlockCacheEntry)
    → IsDated ledger (id, entry)
    → Keeps ledger final last_finalized executed_ids cache
    → Keeps ledger final last_finalized (id ∷ executed_ids) ((id, entry) ∷ cache)
Keeps-new ledger final l executed_ids cache id entry here (kept, only, at, dated) = (
  λ x e above. ground (arith, kept x),
  λ x e above. ground (arith, only x),
  (λ e. ground (arith, at.0), λ e. ground (arith, at.1)),
  (here, dated),
)
