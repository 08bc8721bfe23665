-- ===== src/Cli/Program.antt =====
-- main of cmd/monad_cli.cpp: the options, the interactive mode, and the two modes with snapshots.
pub mod Laws
use monad_fork.Prelude.{
  true, false, none, some, [], ◌∷◌, ◌++◌, if◌then◌else◌, ℕ, Bool, not, Option, List,
}
use monad_fork.Text.{codes, same_text}
use monad_fork.Node.Views.{is_ok}
use monad_fork.Node.Outcome.{Outcome}
use monad_fork.Node.Block.{Bytes}
use monad_fork.Text.Cli11.{
  Given, option_is, number_is, flag_is, Cli11, CliError, call_for_help, required_error, other_error,
  Words, sets, fails,
}
use monad_fork.Cli.Machine.{TrieDb, Message, initial}
use monad_fork.Cli.Actions.{Decoders}
use monad_fork.Cli.Commands.{interactive}

pub record CliArguments : Type 0 where
  pub dbname_paths : List Bytes
  pub sq_thread_cpu : Option ℕ
  pub log_level : Bytes
  pub is_interactive : Bool
  pub dump_binary_snapshot : Option Bytes
  pub load_binary_snapshot : Option Bytes
  pub version : ℕ

-- `version` is not initialized.
abbrev pub default_cli_arguments : ℕ → CliArguments
default_cli_arguments uninitialized = record {
  dbname_paths = [];
  sq_thread_cpu = none;
  log_level = codes "Info";
  is_interactive = false;
  dump_binary_snapshot = none;
  load_binary_snapshot = none;
  version = uninitialized;
}

abbrev pub cli_options : List Bytes
cli_options =
    codes "--db"
    ∷ codes "--sq_thread_cpu"
    ∷ codes "--log_level"
    ∷ codes "--version"
    ∷ codes "--dump_binary_snapshot"
    ∷ codes "--load_binary_snapshot"
    ∷ []

abbrev pub cli_flags : List Bytes
cli_flags = codes "--it,--interactive" ∷ []

unfoldable pub set_option : Given → CliArguments → CliArguments
unfolding same_text
set_option (option_is name value) args =
    if same_text name (codes "--db")
    then record args { dbname_paths = args.dbname_paths ++ value ∷ [] }
    else if same_text name (codes "--log_level")
    then record args { log_level = value }
    else if same_text name (codes "--dump_binary_snapshot")
    then record args { dump_binary_snapshot = some value }
    else if same_text name (codes "--load_binary_snapshot")
    then record args { load_binary_snapshot = some value }
    else args
set_option (number_is name n) args =
    if same_text name (codes "--sq_thread_cpu")
    then record args { sq_thread_cpu = some n }
    else if same_text name (codes "--version")
    then record args { version = n }
    else args
set_option (flag_is name on) args =
    if same_text name (codes "--it,--interactive")
    then record args { is_interactive = on }
    else args

unfoldable pub set_options : List Given → CliArguments → CliArguments
unfolding set_option
set_options [] args = args
set_options (given ∷ more) args = set_options more (set_option given args)

-- What is done to the database, in order.
pub data DbCall : Type 0 where
  opened_read_only closed_read_only : List Bytes → DbCall
  printed_summary : DbCall
  ran_interactive : Outcome (List Message) → DbCall
  not_a_terminal : DbCall
  created_context : Bytes → ℕ → DbCall
  -- monad_db_dump_snapshot: the CPU, the version and the result
  dumped : List Bytes → ℕ → ℕ → Bool → DbCall
  destroyed_context : Bytes → DbCall
  loaded : List Bytes → ℕ → Bytes → ℕ → DbCall

-- The libraries, the database that is there, and the terminal.
pub record Terminal : Type 0 where
  pub cli : Cli11
  pub decoders : Decoders
  pub open_db : List Bytes → TrieDb
  pub isatty : Bool
  pub lines : List Bytes
  pub dump_snapshot : List Bytes → ℕ → ℕ → Bytes → Bool
  -- CLI::ExistingDirectory
  pub existing_directory : Bytes → Bool
  pub uninitialized : ℕ

abbrev unsigned_max : ℕ
unsigned_max = 4294967295

-- `value_or`
unfoldable pub cpu_of : Option ℕ → ℕ
cpu_of none = unsigned_max
cpu_of (some n) = n

module _ (env : Terminal) where
  -- `none` where the reader fails an assert or an exception ends it.
  unfoldable pub interactive_impl : TrieDb → List DbCall × Option ℕ
  unfolding interactive initial
  interactive_impl db =
      if not env.isatty
      then (not_a_terminal ∷ [], some 1)
      else (let r = interactive db env.decoders env.lines (initial db) in
          (ran_interactive r ∷ [], if is_ok r then some 0 else none))

  unfoldable pub snapshot_mode : CliArguments → List DbCall × Option ℕ
  unfolding cpu_of
  snapshot_mode args = elim args.dump_binary_snapshot [
    | some dir ↦
        let success =
          env.dump_snapshot args.dbname_paths (cpu_of args.sq_thread_cpu) args.version dir in
        (
          created_context dir args.version
              ∷ dumped args.dbname_paths (cpu_of args.sq_thread_cpu) args.version success
              ∷ destroyed_context dir
              ∷ [],
          if success then some 0 else some 1,
        )
    | none ↦ elim args.load_binary_snapshot [
      | some dir ↦
          (loaded args.dbname_paths (cpu_of args.sq_thread_cpu) dir args.version ∷ [], some 0)
      | none ↦ ([], some 0)
    ]
  ]

  -- The database that is open for reading is closed at the end of its block, also on the return, and
  -- with the process.
  unfoldable pub run_mode : CliArguments → List DbCall × Option ℕ
  unfolding interactive_impl snapshot_mode
  run_mode args =
      if args.is_interactive
      then (
        (interactive_impl (env.open_db args.dbname_paths)).0
            ++ closed_read_only args.dbname_paths ∷ [],
        (interactive_impl (env.open_db args.dbname_paths)).1,
      )
      else (closed_read_only args.dbname_paths ∷ (snapshot_mode args).0, (snapshot_mode args).1)

  unfoldable pub run_cli : CliArguments → List DbCall × Option ℕ
  unfolding run_mode
  run_cli args =
      let (calls, code) = run_mode args in
      (opened_read_only args.dbname_paths ∷ printed_summary ∷ calls, code)

  unfoldable pub run_words : Words → List DbCall × Option ℕ
  unfolding run_cli set_options
  run_words (fails call_for_help) = ([], some (env.cli.exit call_for_help))
  run_words (fails required_error) = ([], some (env.cli.exit required_error))
  run_words (fails (other_error code)) = ([], none)
  run_words (sets given) = run_cli (set_options given (default_cli_arguments env.uninitialized))

  unfoldable pub check_directory : Bytes → Bytes → Bool
  unfolding same_text
  check_directory name value =
      if same_text name (codes "--load_binary_snapshot") then env.existing_directory value else true

  unfoldable pub cli_main : List Bytes → List DbCall × Option ℕ
  unfolding run_words check_directory
  cli_main argv = run_words (env.cli.parse cli_options cli_flags check_directory argv)
