-- ===== src/Main/Program.antt =====
-- main of cmd/monad/main.cpp as a whole.
pub mod Laws
pub mod Range
use monad_fork.Prelude.{true, false, not, none, some, [], ◌∷◌, if◌then◌else◌, Bool, Option, List, ℕ}
use monad_fork.Text.Cli11.{
  Cli11, CliError, call_for_help, required_error, other_error, Words, sets, fails,
}
use monad_fork.Node.Block.{Bytes}
use monad_fork.Node.Externals.{History}
use monad_fork.Node.Ending.{End}
use monad_fork.Event.Files.{Log, System}
use monad_fork.Main.{ChainConfig, exit_code}
use monad_fork.Main.Options.{
  Paths, NodeArguments, OnDiskDbConfig, db_config, default_node_arguments, node_options, node_flags,
  check_value, assign_given,
}
use monad_fork.Main.Start.{Startup, go, exit_with, dies, InitialState, start_event_ring}
use monad_fork.Main.Run.{NodeOptions, World, run_node}

-- The libraries, and what the node finds for its options.
pub record Surroundings : Type 0 where
  pub cli : Cli11
  pub os : System
  pub paths : Paths
  -- MONAD_EVENT_DEFAULT_EXEC_FILE_NAME
  pub default_ring_name : Bytes
  pub nprocs : ℕ
  pub init_trusted_setup : Bool
  -- mpt::Db of this configuration, opened
  pub state : Option OnDiskDbConfig → NodeArguments → InitialState
  pub world : NodeArguments → World

abbrev pub is_in_memory : Option OnDiskDbConfig → Bool
is_in_memory none = true
is_in_memory (some _) = false

-- An exit code; an assert or an exception that nothing catches; or a runner that aborted or goes on.
pub data MainEnd : Type 0 where
  exited : ℕ → MainEnd
  died unfinished : MainEnd

-- The end, the file calls, the history of the runner, and the directory and the block of a dump.
pub record MainRun : Type 0 where
  pub main_end : MainEnd
  pub log : Log
  pub history : History
  pub dump : Option (Bytes × ℕ)

abbrev no_run : MainEnd → Log → History → MainRun
no_run e log h = record { main_end = e; log = log; history = h; dump = none }

-- `none` is the exception of std::stoul; without `--snapshot` there is no block number.
unfoldable pub snapshot_number : Paths → Bytes → Option (Option ℕ)
snapshot_number paths [] = some none
snapshot_number paths (c ∷ s) = elim (paths.stoul (paths.stem (c ∷ s))) [
  | none ↦ none
  | some n ↦ some (some n)
]

abbrev pub is_empty : Bytes → Bool
is_empty [] = true
is_empty (_ ∷ _) = false

abbrev pub run_options : NodeArguments → ChainConfig → Option ℕ → NodeOptions
run_options args chain snapshot = record {
  chain = chain;
  as_eth_blocks = args.as_eth_blocks;
  nblocks = args.nblocks;
  snapshot = snapshot;
  has_statesync = not (is_empty args.statesync);
  trace_calls = args.trace_calls;
}

-- The dump is made whether the runner returned an error or not.
unfoldable pub after_run : NodeArguments → Log → End → MainRun
unfolding exit_code
after_run args log e = elim (exit_code e.ending) [
  | none ↦ no_run unfinished log e.history
  | some code ↦ record {
    main_end = exited code;
    log = log;
    history = e.history;
    dump = if is_empty args.dump_snapshot then none else some (args.dump_snapshot, e.block_num);
  }
]

module _ (env : Surroundings) where
  unfoldable pub initial_state : NodeArguments → InitialState
  unfolding db_config
  initial_state args = record (env.state (db_config args) args) {
    in_memory = is_in_memory (db_config args);
  }

  unfoldable pub with_snapshot :
      NodeArguments → ChainConfig → Log → History → Option (Option ℕ) → MainRun
  unfolding after_run run_node initial_state
  with_snapshot args chain log h none = no_run died log h
  with_snapshot args chain log h (some snapshot) =
      after_run args log
        (run_node (env.world args) (run_options args chain snapshot) (initial_state args) h)

  unfoldable pub with_chain : NodeArguments → Log → History → Option ChainConfig → MainRun
  unfolding with_snapshot snapshot_number
  with_chain args log h none = no_run died log h
  with_chain args log h (some chain) =
      with_snapshot args chain log h (snapshot_number env.paths args.snapshot)

  unfoldable pub after_start : NodeArguments → History → Startup (Unit {0}) × Log → MainRun
  unfolding with_chain
  after_start args h (go _, log) =
      if env.init_trusted_setup then with_chain args log h args.chain_config else no_run died log h
  after_start args h (exit_with code, log) = no_run (exited code) log h
  after_start args h (dies, log) = no_run died log h

  -- Two of the errors are caught.
  unfoldable pub after_words : Words → Log → History → MainRun
  unfolding after_start assign_given start_event_ring
  after_words (fails call_for_help) log h = no_run (exited (env.cli.exit call_for_help)) log h
  after_words (fails required_error) log h = no_run (exited (env.cli.exit required_error)) log h
  after_words (fails (other_error code)) log h = no_run died log h
  after_words (sets given) log h =
      let args = assign_given given (default_node_arguments env.nprocs) in
      after_start args h
        (start_event_ring env.os env.default_ring_name args.exec_event_ring_config log)

  unfoldable pub node_main : List Bytes → Log → History → MainRun
  unfolding after_words check_value
  node_main argv log h =
      after_words (env.cli.parse node_options node_flags (check_value env.paths) argv) log h
