-- ===== src/Cli/Commands/Lines.antt =====
-- The reader survives its input: which lines can end the process, and which cannot.
use monad_fork.Prelude.{none, ◌≡◌, ◌≢◌, [], ◌∷◌, u64_max, true, List}
use monad_fork.Cli.Actions.{Decoders}
use monad_fork.Cli.Commands.Laws.{GetsValues}
use monad_fork.Wal.{next}
use monad_fork.Text.{codes, same_text, from_chars}
use monad_fork.Node.Outcome.{ok, err, abort}
use monad_fork.Node.Block.{Bytes}
use monad_fork.Cli.Commands.{Step}
use monad_fork.Cli.Machine.{TrieDb, Machine}
use monad_fork.Cli.Machine.Invariant.{IsConsistent}

-- The loop goes on or is left with a consistent cursor; the process does not end.
abbrev pub Survives : TrieDb → Step → Type 0
Survives db (ok (m, next, lines)) = IsConsistent db m
Survives db (err e) = ⊥
Survives db abort = ⊥

-- The number in front of the first argument is not INVALID_BLOCK_NUM.
abbrev pub NamesVersion : TrieDb → List Bytes → Type 0
NamesVersion db [] = Unit
NamesVersion db (arg ∷ more) = (from_chars u64_max arg).value ≢ db.invalid_block_num

-- The first argument is a text that parse<bytes32_t> accepts.
abbrev pub NamesBlock : Decoders → List Bytes → Type 0
NamesBlock dec [] = Unit
NamesBlock dec (arg ∷ more) = dec.parse_bytes32 arg ≢ none

-- A `version` line does not name INVALID_BLOCK_NUM, a `proposal` line has a block id that can be
-- parsed, and the nodes that a `get` line comes to have values.
pub record IsSafe (db : TrieDb) (dec : Decoders) (m : Machine) (name : Bytes) (args : List Bytes)
    : Type 0 where
  pub names_version : same_text name (codes "version") ≡ true → NamesVersion db args
  pub names_block : same_text name (codes "proposal") ≡ true → NamesBlock dec args
  pub gets_values :
      same_text name (codes "get") ≡ true
      → m.curr_table_id ≢ db.invalid_nibble
      → GetsValues db dec m args

abbrev pub IsSafeLine : TrieDb → Decoders → Machine → List Bytes → Type 0
IsSafeLine db dec m [] = Unit
IsSafeLine db dec m (name ∷ args) = IsSafe db dec m name args
