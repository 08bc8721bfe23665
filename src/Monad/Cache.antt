-- ===== src/Monad/Cache.antt =====
-- BlockCache: a map from block ids to the senders and authorities of recent blocks.
use monad_fork.Prelude.{
  ◌-◌, ◌&&◌, none, some, [], ◌∷◌, ◌==◌, if◌then◌else◌, ℕ, Bool, Option, List, ltb,
}
use monad_fork.Node.Outcome.{Outcome, ok, abort, and_then, or_abort}
use monad_fork.Node.Block.{AddressSet, ChainContext}

pub record BlockCacheEntry : Type 0 where
  pub block_number : ℕ
  pub parent_id : ℕ
  pub senders_and_authorities : AddressSet

abbrev pub BlockCache : Type 0
BlockCache = List (ℕ × BlockCacheEntry)

-- `find`, which `contains` and `at` are written with
unfoldable pub find : BlockCache → ℕ → Option BlockCacheEntry
find [] id = none
find ((key, entry) ∷ cache) id = if key == id then some entry else find cache id

-- `emplace` under MONAD_ASSERT(... .second): the key must be new.
unfoldable pub emplace : BlockCache → ℕ → BlockCacheEntry → Outcome BlockCache
unfolding find
emplace cache id entry = elim (find cache id) [ none ↦ ok ((id, entry) ∷ cache) | some _ ↦ abort ]

-- The predicate of std::erase_if, for the last finalized block.
unfoldable pub is_old : ℕ → BlockCacheEntry → Bool
is_old last_finalized entry = ltb 1 last_finalized && ltb entry.block_number (last_finalized - 1)

unfoldable pub erase_old : ℕ → BlockCache → BlockCache
unfolding is_old
erase_old last_finalized [] = []
erase_old last_finalized ((id, entry) ∷ cache) =
    let rest = erase_old last_finalized cache in
    if is_old last_finalized entry then rest else (id, entry) ∷ rest

-- The sets of the parent and the grandparent, which the cache must hold from block 2 and 3 on.
unfoldable pub chain_context : BlockCache → ℕ → ℕ → AddressSet → Outcome ChainContext
unfolding find
chain_context cache number parent_id own =
    if ltb 1 number
    then (and_then (or_abort (find cache parent_id)) λ parent_entry.
        if ltb 2 number
        then (and_then (or_abort (find cache parent_entry.parent_id)) λ grandparent_entry.
            ok (record {
              grandparent_senders_and_authorities = some grandparent_entry.senders_and_authorities;
              parent_senders_and_authorities = some parent_entry.senders_and_authorities;
              senders_and_authorities = own;
            }))
        else ok (record {
          grandparent_senders_and_authorities = none;
          parent_senders_and_authorities = some parent_entry.senders_and_authorities;
          senders_and_authorities = own;
        }))
    else ok (record {
      grandparent_senders_and_authorities = none;
      parent_senders_and_authorities = none;
      senders_and_authorities = own;
    })
