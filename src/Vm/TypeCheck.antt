-- ===== src/Vm/TypeCheck.antt =====
-- cmd/vm/type-check/directory_type_check.cpp: every contract of a directory goes through the type
-- checker.
pub mod Laws
use monad_fork.Node.Run.{◌>>=◌, ◌>>◌}
use monad_fork.Prelude.{false, none, some, [], ◌∷◌, ◌++◌, if◌then◌else◌, Bool, not, Option, List, ℕ}
use monad_fork.Text.{codes}
use monad_fork.Node.Block.{Bytes}

-- The type of a contract's first block, if it has a block.
pub data Verdict : Type 0 where
  failed_check exits : Verdict
  typed : ℕ → Verdict

pub data Line : Type 0 where
  usage : Line
  io_error : Bytes → Line
  verdict : Bytes → Verdict → Line

pub record DirectoryEntry : Type 0 where
  pub path : Bytes
  pub is_regular_file : Bool

-- The file system and the library. fs::is_directory gives false also where it sets its error code.
pub record Checker : Type 0 where
  pub is_directory : Bytes → Bool
  pub entries : Bytes → List DirectoryEntry
  -- the error code that recursive_directory_iterator's construction leaves; it is then the end iterator
  pub walk_error : Bytes → Option Bytes
  -- whether behind the listed entries an increment of the iterator, or the status of the entry that
  -- it comes to, throws: they do not set the error code
  pub walk_throws : Bytes → Bool
  -- std::ifstream: the contents of a file that opens, and whether reading them succeeds
  pub open_file : Bytes → Option Bytes
  pub reads : Bytes → Bool
  -- the result of type_check, and the kinds of the blocks
  pub type_check : Bytes → Bool
  pub block_kinds : Bytes → List ℕ

module _ (lib : Checker) where
  unfoldable pub type_check_contract : Bytes → Bytes → Line
  type_check_contract path contract =
      if not (lib.type_check contract)
      then verdict path failed_check
      else elim (lib.block_kinds contract) [
        | [] ↦ verdict path exits
        | kind ∷ _ ↦ verdict path (typed kind)
      ]

  unfoldable pub read_contract : Bytes → Option Bytes
  read_contract path = elim (lib.open_file path) [
    | none ↦ none
    | some contents ↦ if lib.reads path then some contents else none
  ]

  -- The lines that are printed, and the exit code: none if the program ends with an exception.
  unfoldable pub check_file : Bytes → Option Bytes → (List Line × Option ℕ) → List Line × Option ℕ
  unfolding type_check_contract
  check_file path none rest = (io_error (codes "failed reading contract " ++ path) ∷ [], some 1)
  check_file path (some contract) rest = (type_check_contract path contract ∷ rest.0, rest.1)

  -- The rest of the loop, over the entries that the iterator comes to; `throws` is whether it
  -- throws behind them.
  unfoldable pub check_entries : Bool → List DirectoryEntry → List Line × Option ℕ
  unfolding check_file read_contract
  check_entries throws [] = ([], if throws then none else some 0)
  check_entries throws (entry ∷ entries) =
      let rest = check_entries throws entries in
      if entry.is_regular_file then check_file entry.path (read_contract entry.path) rest else rest

  -- The loop and the test of the error code that follows it.
  unfoldable pub walk_directory : Bytes → List Line × Option ℕ
  unfolding check_entries
  walk_directory dir = elim (lib.walk_error dir) [
    | none ↦ check_entries (lib.walk_throws dir) (lib.entries dir)
    | some message ↦ (io_error message ∷ [], some 1)
  ]

  unfoldable pub check_main : List Bytes → List Line × Option ℕ
  unfolding walk_directory
  check_main [] = (usage ∷ [], some 1)
  check_main (dir ∷ []) =
      if not (lib.is_directory dir) then (usage ∷ [], some 1) else walk_directory dir
  check_main (dir ∷ extra ∷ more) = (usage ∷ [], some 1)
