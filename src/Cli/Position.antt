-- ===== src/Cli/Position.antt =====
-- What the cursor of the reader stands for: nothing, a version, a section of it, or a table of that.
-- The machine's operations are moves between these, and its other fields carry nothing more.
use monad_fork.Prelude.{
  ◌≡◌, refl, ◌≢◌, ◌&&◌, ◌||◌, [], ◌∷◌, ◌++◌, arith, ◌==◌, if◌then◌else◌, subst, Bool, not, List,
  ltb, All, ℕ,
}
use monad_fork.Cli.Machine.{
  back, DbState, unset, version_number, proposal_or_finalize, invalid, TrieDb, Machine, Reply,
  has_value, initial, set_version, section_prefix, set_proposal_or_finalized, set_table,
}
use monad_fork.Node.Outcome.{Outcome, ok, err, abort, and_then}
use monad_fork.Node.Block.{Bytes}
use monad_fork.Cli.Machine.Invariant.{IsDb, IsConsistent, initial-IsConsistent}

pub data Position : Type 0 where
  nowhere : Position
  at_version : ℕ → Position
  at_section : ℕ → ℕ → Position
  at_table : ℕ → ℕ → ℕ → Position

-- The user's moves.
pub data Move : Type 0 where
  version section table : ℕ → Move
  up : Move

module _ (db : TrieDb) where
  abbrev has_version : ℕ → Bool
  has_version v = not (ltb v db.earliest_version || ltb db.latest_version v)

  abbrev has_section : ℕ → ℕ → Bool
  has_section v id = has_value (db.find (section_prefix db id) v)

  abbrev has_table : ℕ → ℕ → ℕ → Bool
  has_table v id t =
      (t == db.state_nibble || t == db.code_nibble || t == db.receipt_nibble)
      && has_value (db.find (section_prefix db id ++ t ∷ []) v)

  -- A move that does not fit, or whose goal is not there, stays.
  abbrev pub go : Move → Position → Position
  go (version v) nowhere = if has_version v then at_version v else nowhere
  go (section id) (at_version v) = if has_section v id then at_section v id else at_version v
  go (table t) (at_section v id) = if has_table v id t then at_table v id t else at_section v id
  go up (at_table v id t) = at_section v id
  go up (at_section v id) = at_version v
  go up (at_version v) = nowhere
  go move p = p

  pub go_all : List Move → Position → Position
  go_all [] p = p
  go_all (move ∷ moves) p = go_all moves (go move p)

  abbrev pub position : Machine → Position
  position m = elim m.state [
    | unset ↦ nowhere
    | version_number ↦ at_version m.curr_version
    | proposal_or_finalize ↦ at_section m.curr_version m.curr_block_id
    | DbState.table ↦ at_table m.curr_version m.curr_block_id m.curr_table_id
    | invalid ↦ nowhere
  ]

  -- The operation of the machine for a move.
  unfoldable pub run_move : Move → Machine → Reply
  run_move (version v) m = set_version db v m
  run_move (section id) m = set_proposal_or_finalized db id m
  run_move (table t) m = set_table db t m
  run_move up m = ok (back db m)

  unfoldable pub run_moves : List Move → Machine → Outcome Machine
  unfolding run_move
  run_moves [] m = ok m
  run_moves (move ∷ moves) m = and_then (run_move move m) λ (m', _). run_moves moves m'

  -- A move that names a version names one that is not INVALID_BLOCK_NUM.
  abbrev pub IsNamed : Move → Type 0
  IsNamed (version v) = v ≢ db.invalid_block_num
  IsNamed _ = Unit

  -- The reply is a consistent cursor at this position.
  abbrev At : Position → Reply → Type 0
  At p (ok (m, lines)) = IsConsistent db m × (position m ≡ p)
  At p (err e) = ⊥
  At p abort = ⊥

  abbrev at_state : DbState → ℕ → ℕ → Bytes → ℕ → Machine
  at_state s v b p t = record {
    curr_version = v;
    curr_block_id = b;
    curr_section_prefix = p;
    curr_table_id = t;
    state = s;
  }

  run_move-At :
      (move : Move) (s : DbState) (v b : ℕ) (p : Bytes) (t : ℕ)
      → IsDb db
      → IsNamed move
      → IsConsistent db (at_state s v b p t)
      → At (go move (position (at_state s v b p t))) (run_move move (at_state s v b p t))
  unfolding run_move set_version set_proposal_or_finalized set_table back section_prefix
  run_move-At (version n) unset v b p t d named c = ground (arith, d.prefixes b)
  run_move-At (version n) version_number v b p t d named c = ground (arith, d.prefixes b)
  run_move-At (version n) proposal_or_finalize v b p t d named c = ground (arith, d.prefixes b)
  run_move-At (version n) DbState.table v b p t d named c = ground (arith, d.prefixes b)
  run_move-At (section n) unset v b p t d named c = ground (arith, d.prefixes b, d.prefixes n)
  run_move-At (section n) version_number v b p t d named c =
      ground (arith, d.prefixes b, d.prefixes n)
  run_move-At (section n) proposal_or_finalize v b p t d named c =
      ground (arith, d.prefixes b, d.prefixes n)
  run_move-At (section n) DbState.table v b p t d named c =
      ground (arith, d.prefixes b, d.prefixes n)
  run_move-At (table n) unset v b p t d named c = ground (arith, d.prefixes b)
  run_move-At (table n) version_number v b p t d named c = ground (arith, d.prefixes b)
  run_move-At (table n) proposal_or_finalize v b p t d named c = ground (arith, d.prefixes b)
  run_move-At (table n) DbState.table v b p t d named c = ground (arith, d.prefixes b)
  run_move-At up unset v b p t d named c = ground arith
  run_move-At up version_number v b p t d named c = ground arith
  run_move-At up proposal_or_finalize v b p t d named c = ground arith
  run_move-At up DbState.table v b p t d named c = ground arith
  run_move-At move invalid v b p t d named c = absurd c

  -- A run that goes on, with where it ends.
  abbrev EndsAt : Position → Outcome Machine → Type 0
  EndsAt p (ok m) = IsConsistent db m × (position m ≡ p)
  EndsAt p (err e) = ⊥
  EndsAt p abort = ⊥

  after_move :
      (moves : List Move) (p : Position) (r : Reply)
      → At p r
      → ((m : Machine) → IsConsistent db m → EndsAt (go_all moves (position m)) (run_moves moves m))
      → EndsAt (go_all moves p) (and_then r λ (m', _). run_moves moves m')
  after_move moves p (ok (m, lines)) (c, here) ih =
      subst (λ q. EndsAt (go_all moves q) (run_moves moves m)) here (ih m c)
  after_move moves p (err e) at_ ih = absurd at_
  after_move moves p abort at_ ih = absurd at_

  ends_at :
      (moves : List Move) (m : Machine)
      → IsDb db
      → All IsNamed moves
      → IsConsistent db m
      → EndsAt (go_all moves (position m)) (run_moves moves m)
  unfolding run_moves go_all
  ends_at [] m d named c = (c, refl)
  ends_at (move ∷ moves) m d (named, more) c =
      after_move moves (go move (position m)) (run_move move m)
        (run_move-At move m.state m.curr_version m.curr_block_id m.curr_section_prefix
          m.curr_table_id d named c)
        λ m' c'. ends_at moves m' d more c'

  ended :
      (p : Position) (r : Outcome Machine)
      → EndsAt p r
      → (m : Machine) × (r ≡ ok m) × IsConsistent db m × (position m ≡ p)
  ended p (ok m) (c, here) = (m, refl, c, here)
  ended p (err e) at_ = absurd at_
  ended p abort at_ = absurd at_

  -- Any sequence of moves from the start, none of which names INVALID_BLOCK_NUM, runs to its end, and
  -- the cursor is consistent and is where the same moves lead on positions alone.
  pub run_moves_refines :
      (moves : List Move)
      → IsDb db
      → All IsNamed moves
      → (m : Machine) × (run_moves moves (initial db) ≡ ok m)
        × IsConsistent db m
        × (position m ≡ go_all moves nowhere)
  unfolding initial
  run_moves_refines moves d named =
      ended (go_all moves nowhere) (run_moves moves (initial db))
        (ends_at moves (initial db) d named (initial-IsConsistent db))
