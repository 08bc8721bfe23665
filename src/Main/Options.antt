-- ===== src/Main/Options.antt =====
-- The options of cmd/monad/main.cpp.
pub mod Laws
use monad_fork.Prelude.{
  not, ◌-◌, false, true, ◌&&◌, none, some, [], ◌∷◌, ◌++◌, if◌then◌else◌, Bool, Option, List,
  u64_max, ℕ,
}
use monad_fork.Text.{codes, same_text}
use monad_fork.Text.Cli11.{Given, option_is, flag_is, number_is}
use monad_fork.Node.Block.{Bytes}
use monad_fork.Main.{ChainConfig, ethereum_mainnet, monad_devnet, monad_testnet, monad_mainnet}
use monad_fork.Event.{ParsedConfig, parsed, try_parse_event_ring_config}

-- std::filesystem, and std::stoul of a text that is not a number is `none`.
pub record Paths : Type 0 where
  pub is_regular_file : Bytes → Bool
  pub join : Bytes → Bytes → Bytes
  pub stem : Bytes → Bytes
  pub stoul : Bytes → Option ℕ

pub record NodeArguments : Type 0 where
  pub chain_config : Option ChainConfig
  pub block_db_path : Bytes
  pub nblocks : ℕ
  pub log_level : Bytes
  pub nthreads : ℕ
  pub nfibers : ℕ
  pub no_compaction : Bool
  pub trace_calls : Bool
  pub as_eth_blocks : Bool
  -- none where the option is not given
  pub exec_event_ring_config : Option Bytes
  pub sq_thread_cpu : ℕ
  pub ro_sq_thread_cpu : Option ℕ
  pub dbname_paths : List Bytes
  pub snapshot : Bytes
  pub dump_snapshot : Bytes
  pub statesync : Bytes

-- Of get_nprocs().
abbrev pub default_node_arguments : ℕ → NodeArguments
default_node_arguments nprocs = record {
  chain_config = none;
  block_db_path = [];
  nblocks = u64_max;
  log_level = codes "Info";
  nthreads = 4;
  nfibers = 256;
  no_compaction = false;
  trace_calls = false;
  as_eth_blocks = false;
  exec_event_ring_config = none;
  sq_thread_cpu = nprocs - 1;
  ro_sq_thread_cpu = none;
  dbname_paths = [];
  snapshot = [];
  dump_snapshot = [];
  statesync = [];
}

abbrev pub node_options : List Bytes
node_options =
    codes "--chain"
    ∷ codes "--block_db"
    ∷ codes "--nblocks"
    ∷ codes "--log_level"
    ∷ codes "--nthreads"
    ∷ codes "--nfibers"
    ∷ codes "--sq_thread_cpu"
    ∷ codes "--ro_sq_thread_cpu"
    ∷ codes "--db"
    ∷ codes "--dump_snapshot"
    ∷ codes "--snapshot"
    ∷ codes "--statesync"
    ∷ codes "--exec-event-ring"
    ∷ []

abbrev pub node_flags : List Bytes
node_flags = codes "--no-compaction" ∷ codes "--trace_calls" ∷ codes "--as_eth_blocks" ∷ []

-- CHAIN_CONFIG_MAP; CLI11 hands on a name as the map spells it.
unfoldable pub chain_of : Bytes → Option ChainConfig
unfolding same_text
chain_of name =
    if same_text name (codes "ethereum_mainnet")
    then some ethereum_mainnet
    else if same_text name (codes "monad_devnet")
    then some monad_devnet
    else if same_text name (codes "monad_testnet")
    then some monad_testnet
    else if same_text name (codes "monad_mainnet")
    then some monad_mainnet
    else none

unfoldable pub check_snapshot : Paths → Bytes → Bool
check_snapshot paths s =
    paths.is_regular_file (paths.join s (codes "accounts"))
    && paths.is_regular_file (paths.join s (codes "code"))

unfoldable pub check_event_ring : Bytes → Bool
unfolding try_parse_event_ring_config
check_event_ring s = elim (try_parse_event_ring_config s) [ parsed c ↦ true | _ ↦ false ]

-- The checks that are declared with two of the options.
unfoldable pub check_value : Paths → Bytes → Bytes → Bool
unfolding check_snapshot check_event_ring same_text
check_value paths name value =
    if same_text name (codes "--snapshot")
    then check_snapshot paths value
    else if same_text name (codes "--exec-event-ring")
    then check_event_ring value
    else true

unfoldable pub assign_option : Bytes → Bytes → NodeArguments → NodeArguments
unfolding same_text chain_of
assign_option name value args =
    if same_text name (codes "--exec-event-ring")
    then record args { exec_event_ring_config = some value }
    else if same_text name (codes "--chain")
    then record args { chain_config = chain_of value }
    else if same_text name (codes "--block_db")
    then record args { block_db_path = value }
    else if same_text name (codes "--log_level")
    then record args { log_level = value }
    else if same_text name (codes "--db")
    then record args { dbname_paths = args.dbname_paths ++ value ∷ [] }
    else if same_text name (codes "--dump_snapshot")
    then record args { dump_snapshot = value }
    else if same_text name (codes "--snapshot")
    then record args { snapshot = value }
    else if same_text name (codes "--statesync")
    then record args { statesync = value }
    else args

unfoldable pub assign_number : Bytes → ℕ → NodeArguments → NodeArguments
unfolding same_text
assign_number name n args =
    if same_text name (codes "--nblocks")
    then record args { nblocks = n }
    else if same_text name (codes "--nthreads")
    then record args { nthreads = n }
    else if same_text name (codes "--nfibers")
    then record args { nfibers = n }
    else if same_text name (codes "--sq_thread_cpu")
    then record args { sq_thread_cpu = n }
    else if same_text name (codes "--ro_sq_thread_cpu")
    then record args { ro_sq_thread_cpu = some n }
    else args

unfoldable pub assign_flag : Bytes → Bool → NodeArguments → NodeArguments
unfolding same_text
assign_flag name on args =
    if same_text name (codes "--no-compaction")
    then record args { no_compaction = on }
    else if same_text name (codes "--trace_calls")
    then record args { trace_calls = on }
    else if same_text name (codes "--as_eth_blocks")
    then record args { as_eth_blocks = on }
    else args

unfoldable pub assign_given : List Given → NodeArguments → NodeArguments
unfolding assign_option assign_number assign_flag
assign_given [] args = args
assign_given (option_is name value ∷ more) args = assign_given more (assign_option name value args)
assign_given (number_is name n ∷ more) args = assign_given more (assign_number name n args)
assign_given (flag_is name on ∷ more) args = assign_given more (assign_flag name on args)

-- mpt::OnDiskDbConfig, as far as it is set
pub record OnDiskDbConfig : Type 0 where
  pub append : Bool
  pub compaction : Bool
  pub rewind_to_latest_finalized : Bool
  pub rd_buffers : ℕ
  pub wr_buffers : ℕ
  pub uring_entries : ℕ
  pub sq_thread_cpu : ℕ
  pub dbname_paths : List Bytes

-- `none` is a database in memory, where no path is given.
unfoldable pub db_config : NodeArguments → Option OnDiskDbConfig
db_config args = elim args.dbname_paths [
  | [] ↦ none
  | first ∷ rest ↦ some (record {
    append = true;
    compaction = not args.no_compaction;
    rewind_to_latest_finalized = true;
    rd_buffers = 8192;
    wr_buffers = 32;
    uring_entries = 128;
    sq_thread_cpu = args.sq_thread_cpu;
    dbname_paths = first ∷ rest;
  })
]
