-- ===== src/Main/Start.antt =====
-- The part of main before the runner: the event ring, the first block and the block hashes.
pub mod Laws
use monad_fork.Prelude.{false, ◌&&◌, none, some, [], ◌∷◌, ◌!=◌, if◌then◌else◌, Bool, not, Option, ℕ}
use monad_fork.Main.{ChainConfig, ethereum_mainnet}
use monad_fork.Event.{
  ParsedConfig, parsed, bad_format, bad_descriptors_shift, bad_payload_buf_shift,
  try_parse_event_ring_config,
}
use monad_fork.Node.Outcome.{Outcome, ok, err, abort, assert_that}
use monad_fork.Node.Block.{Bytes}
use monad_fork.Event.Files.{Log, System}
use monad_fork.Event.Ring.{init_execution_event_recorder}

-- Going on, the return of an exit code, or the end of the process.
pub data Startup {ℓ} (A : Type ℓ) : Type ℓ where
  go : A → Startup A
  exit_with : ℕ → Startup A
  dies : Startup A

unfoldable pub after_init : Outcome (Bool × ℕ) → Startup (Unit {0})
after_init (ok (is_set, rc)) = if rc != 0 then exit_with 1 else go tt
after_init (err e) = dies
after_init abort = dies

unfoldable pub init_parsed : System → ParsedConfig → Log → Startup (Unit {0}) × Log
unfolding after_init
init_parsed os (parsed config) log =
    let (r, log') = init_execution_event_recorder os config false log in (after_init r, log')
init_parsed os bad_format log = (dies, log)
init_parsed os (bad_descriptors_shift e) log = (dies, log)
init_parsed os (bad_payload_buf_shift e) log = (dies, log)

-- `--exec-event-ring` is not given, or given with or without a text.
unfoldable pub start_event_ring : System → Bytes → Option Bytes → Log → Startup (Unit {0}) × Log
unfolding init_parsed
start_event_ring os default_name none log = (go tt, log)
start_event_ring os default_name (some []) log =
    init_parsed os (try_parse_event_ring_config default_name) log
start_event_ring os default_name (some (c ∷ s)) log =
    init_parsed os (try_parse_event_ring_config (c ∷ s)) log

-- The database as main finds it, and the block database; a snapshot is named by its block number.
pub record InitialState : Type 0 where
  pub has_root : Bool
  pub block_number : ℕ
  pub genesis_number : ℕ
  pub has_block : ℕ → Bool
  pub in_memory : Bool
  pub hashes_from_triedb : ℕ → Bool
  pub hashes_from_blockdb : ℕ → Bool

-- init_block_num: a snapshot is loaded into an empty database only, genesis if there is none.
unfoldable pub init_block_num : InitialState → Option ℕ → Bool → Outcome ℕ
init_block_num db (some n) has_statesync =
    if db.has_root then abort else if db.has_block n then ok n else abort
init_block_num db none has_statesync =
    if db.has_root
    then ok db.block_number
    else if has_statesync
    then abort
    else ok db.genesis_number

-- The hashes of the last blocks, from the database or else, for Ethereum only, from the blocks.
unfoldable pub init_block_hash_buffer : InitialState → ChainConfig → ℕ → Outcome (Unit {0})
init_block_hash_buffer db chain start_block_num =
    if not db.in_memory && db.hashes_from_triedb start_block_num then ok tt else elim chain [
      | ethereum_mainnet ↦ assert_that (db.hashes_from_blockdb start_block_num)
      | _ ↦ abort
    ]
