-- ===== src/Cli/Machine/Invariant.antt =====
-- The cursor's fields agree with its state, and no assert of the machine fails.
use monad_fork.Prelude.{◌∷◌, ◌++◌, ◌≡◌, refl, ◌≢◌, ◌⊎◌, false, [], arith, ℕ}
use monad_fork.Cli.Machine.{
  back, looking_up, set_proposal_or_finalized, set_table, lookup, is_empty, DbState, unset,
  version_number, proposal_or_finalize, table, invalid, TrieDb, Machine, initial, set_version,
  section_prefix,
}
use monad_fork.Node.Outcome.{Outcome, ok, err, abort}
use monad_fork.Node.Block.{Bytes}

-- What the reader relies on: a section's prefix is not empty, and the four table ids differ.
pub record IsDb (db : TrieDb) : Type 0 where
  pub prefixes : (id : ℕ) → is_empty (section_prefix db id) ≡ false
  pub state_valid : db.state_nibble ≢ db.invalid_nibble
  pub code_valid : db.code_nibble ≢ db.invalid_nibble
  pub receipt_valid : db.receipt_nibble ≢ db.invalid_nibble

abbrev pub IsTable : TrieDb → ℕ → Type 0
IsTable db t = (t ≡ db.state_nibble) ⊎ ((t ≡ db.code_nibble) ⊎ (t ≡ db.receipt_nibble))

-- At `unset` no version is chosen; at `version_number` a version; at `proposal_or_finalize` also a
-- section, whose prefix is that of the block id; at `table` also one of the three tables.
abbrev pub Agrees : TrieDb → DbState → Machine → Type 0
Agrees db unset m =
    (m.curr_version ≡ db.invalid_block_num)
    × (m.curr_section_prefix ≡ [])
    × (m.curr_table_id ≡ db.invalid_nibble)
Agrees db version_number m =
    (m.curr_version ≢ db.invalid_block_num)
    × (m.curr_section_prefix ≡ [])
    × (m.curr_table_id ≡ db.invalid_nibble)
Agrees db proposal_or_finalize m =
    (m.curr_version ≢ db.invalid_block_num)
    × (m.curr_section_prefix ≡ section_prefix db m.curr_block_id)
    × (m.curr_table_id ≡ db.invalid_nibble)
Agrees db table m =
    (m.curr_version ≢ db.invalid_block_num)
    × (m.curr_section_prefix ≡ section_prefix db m.curr_block_id)
    × IsTable db m.curr_table_id
Agrees db invalid m = ⊥

abbrev pub IsConsistent : TrieDb → Machine → Type 0
IsConsistent db m = Agrees db m.state m

-- The machine that a reply leaves is consistent; there is one.
abbrev pub Continues : {A : Type 0} → TrieDb → Outcome (Machine × A) → Type 0
Continues db (ok (m, a)) = IsConsistent db m
Continues db (err e) = ⊥
Continues db abort = ⊥

module _ (db : TrieDb) where
  pub initial-IsConsistent : IsConsistent db (initial db)
  unfolding initial
  initial-IsConsistent = (refl, refl, refl)

  -- `m` taken apart, for a split on its state.
  abbrev machine : DbState → ℕ → ℕ → Bytes → ℕ → Machine
  machine s v b p t = record {
    curr_version = v;
    curr_block_id = b;
    curr_section_prefix = p;
    curr_table_id = t;
    state = s;
  }

  set_version_at :
      (version : ℕ) (s : DbState) (v b : ℕ) (p : Bytes) (t : ℕ)
      → IsDb db
      → version ≢ db.invalid_block_num
      → Agrees db s (machine s v b p t)
      → Continues db (set_version db version (machine s v b p t))
  unfolding set_version section_prefix
  set_version_at version unset v b p t d given c = ground (arith, d.prefixes b)
  set_version_at version version_number v b p t d given c = ground (arith, d.prefixes b)
  set_version_at version proposal_or_finalize v b p t d given c = ground (arith, d.prefixes b)
  set_version_at version table v b p t d given c = ground (arith, d.prefixes b)
  set_version_at version invalid v b p t d given c = absurd c

  set_proposal_or_finalized_at :
      (id : ℕ) (s : DbState) (v b : ℕ) (p : Bytes) (t : ℕ)
      → IsDb db
      → Agrees db s (machine s v b p t)
      → Continues db (set_proposal_or_finalized db id (machine s v b p t))
  unfolding set_proposal_or_finalized section_prefix
  set_proposal_or_finalized_at id unset v b p t d c = ground (arith, d.prefixes b, d.prefixes id)
  set_proposal_or_finalized_at id version_number v b p t d c =
      ground (arith, d.prefixes b, d.prefixes id)
  set_proposal_or_finalized_at id proposal_or_finalize v b p t d c =
      ground (arith, d.prefixes b, d.prefixes id)
  set_proposal_or_finalized_at id table v b p t d c = ground (arith, d.prefixes b, d.prefixes id)
  set_proposal_or_finalized_at id invalid v b p t d c = absurd c

  set_table_at :
      (table_id : ℕ) (s : DbState) (v b : ℕ) (p : Bytes) (t : ℕ)
      → IsDb db
      → Agrees db s (machine s v b p t)
      → Continues db (set_table db table_id (machine s v b p t))
  unfolding set_table section_prefix
  set_table_at table_id unset v b p t d c = ground (arith, d.prefixes b)
  set_table_at table_id version_number v b p t d c = ground (arith, d.prefixes b)
  set_table_at table_id proposal_or_finalize v b p t d c = ground (arith, d.prefixes b)
  set_table_at table_id table v b p t d c = ground (arith, d.prefixes b)
  set_table_at table_id invalid v b p t d c = absurd c

  back_at :
      (s : DbState) (v b : ℕ) (p : Bytes) (t : ℕ)
      → Agrees db s (machine s v b p t)
      → IsConsistent db (back db (machine s v b p t)).0
  unfolding back
  back_at unset v b p t c = ground arith
  back_at version_number v b p t c = ground arith
  back_at proposal_or_finalize v b p t c = ground arith
  back_at table v b p t c = ground arith
  back_at invalid v b p t c = absurd c

  -- Choosing a version never aborts on a consistent cursor, unless it is INVALID_BLOCK_NUM, and leaves
  -- it consistent, whether the version is accepted or refused.
  pub set_version-Continues :
      (version : ℕ) (m : Machine)
      → IsDb db
      → version ≢ db.invalid_block_num
      → IsConsistent db m
      → Continues db (set_version db version m)
  set_version-Continues version m d given c =
      set_version_at version m.state m.curr_version m.curr_block_id m.curr_section_prefix
        m.curr_table_id d given c

  -- Choosing a section, whether it is found or not.
  pub set_proposal_or_finalized-Continues :
      (id : ℕ) (m : Machine)
      → IsDb db
      → IsConsistent db m
      → Continues db (set_proposal_or_finalized db id m)
  set_proposal_or_finalized-Continues id m d c =
      set_proposal_or_finalized_at id m.state m.curr_version m.curr_block_id m.curr_section_prefix
        m.curr_table_id d c

  -- Choosing a table, whether it is found or not, and for any number.
  pub set_table-Continues :
      (table_id : ℕ) (m : Machine)
      → IsDb db
      → IsConsistent db m
      → Continues db (set_table db table_id m)
  set_table-Continues table_id m d c =
      set_table_at table_id m.state m.curr_version m.curr_block_id m.curr_section_prefix
        m.curr_table_id d c

  -- Going back a level.
  pub back-IsConsistent : (m : Machine) → IsConsistent db m → IsConsistent db (back db m).0
  back-IsConsistent m c =
      back_at m.state m.curr_version m.curr_block_id m.curr_section_prefix m.curr_table_id c

  lookup_at :
      (key : Bytes) (s : DbState) (v b : ℕ) (p : Bytes) (t : ℕ)
      → IsDb db
      → Agrees db s (machine s v b p t)
      → t ≢ db.invalid_nibble
      → lookup db key (machine s v b p t) ≡ ok (db.find (p ++ t ∷ key) v, looking_up key v t ∷ [])
  unfolding lookup
  lookup_at key unset v b p t d c chosen = ground arith
  lookup_at key version_number v b p t d c chosen = ground arith
  lookup_at key proposal_or_finalize v b p t d c chosen = ground arith
  lookup_at key table v b p t d c chosen = ground (arith, d.prefixes b)
  lookup_at key invalid v b p t d c chosen = absurd c

  -- On a consistent cursor with a table id, which is all that the reader's `get` tests for, a lookup
  -- neither complains nor aborts: it looks for the key in that table of the chosen section and version.
  pub lookup_lem :
      (key : Bytes) (m : Machine)
      → IsDb db
      → IsConsistent db m
      → m.curr_table_id ≢ db.invalid_nibble
      → lookup db key m
        ≡ ok (
          db.find (m.curr_section_prefix ++ m.curr_table_id ∷ key) m.curr_version,
          looking_up key m.curr_version m.curr_table_id ∷ [],
        )
  lookup_lem key m d c chosen =
      lookup_at key m.state m.curr_version m.curr_block_id m.curr_section_prefix m.curr_table_id d c
        chosen
