-- ===== src/Tests/Nodes.antt =====
-- The theorems on a run of the node, at the sample chain.
use monad_fork.Main.Program.{Surroundings, exited, node_main}
use monad_fork.Prelude.{
  subst, All, ◌≡◌, ◌≢◌, ◌↔◌, inl, inr, if◌then◌else◌, List, Bool-cases, refl, true, false, none,
  some, [], ◌∷◌, arith,
}
use monad_fork.Main.Options.Laws.{IsChecked}
use monad_fork.Event.{try_parse_event_ring_config}
use monad_fork.Text.{codes, same_text}
use monad_fork.Tests.Rings.{sample_system}
use monad_fork.Main.Options.{Paths, check_value}
use monad_fork.Main.Start.{go, dies, InitialState}
use monad_fork.Text.Cli11.{Given, option_is, sets, fails, other_error, Cli11}
use monad_fork.Main.Program.Laws.{
  Checks, ring_start, ring_start_lives, Returned, arguments_of, node_main_success,
}
use monad_fork.Main.{monad_devnet}
use monad_fork.Main.Run.{NodeOptions, World}
use monad_fork.Tests.Samples.{sample_block, sample_ext, sample_codec, sample_disk, sample_tick}

abbrev sample_world : World
sample_world = record {
  ext = sample_ext;
  codec = sample_codec;
  fuel = 9;
  disk = sample_disk;
  ticks = sample_tick ∷ [];
  block_db = λ n. some (sample_block n);
  stops = false ∷ [];
}

abbrev sample_options : NodeOptions
sample_options = record {
  chain = monad_devnet;
  as_eth_blocks = false;
  nblocks = 2;
  snapshot = none;
  has_statesync = false;
  trace_calls = true;
}

-- An empty database on the disk, with genesis at 0.
abbrev sample_state : InitialState
sample_state = record {
  has_root = false;
  block_number = 0;
  genesis_number = 0;
  has_block = λ n. false;
  in_memory = false;
  hashes_from_triedb = λ n. true;
  hashes_from_blockdb = λ n. false;
}

-- The chain and a ring of the default name are given, and all else is left out.
abbrev sample_given : List Given
sample_given =
    option_is (codes "--chain") (codes "monad_devnet")
    ∷ option_is (codes "--exec-event-ring") []
    ∷ []

abbrev sample_cli : Cli11
sample_cli = record {
  parse = λ options flags check argv.
      if check (codes "--chain") (codes "monad_devnet")
      then sets sample_given
      else fails (other_error 105);
  exit = λ e. 105;
  existing_file = λ name. true;
}

sample_cli-Checks : Checks sample_cli
sample_cli-Checks options flags check argv given e =
    elim (Bool-cases (check (codes "--chain") (codes "monad_devnet"))) [
      | inl p ↦
          let same : sample_given ≡ given = ground arith in
          subst (All (IsChecked check)) same (p, (tt, tt))
      | inr p ↦ absurd (ground arith)
    ]

abbrev sample_paths : Paths
sample_paths = record {
  is_regular_file = λ path. true;
  join = λ a b. b;
  stem = λ path. path;
  stoul = λ s. none;
}

abbrev sample_surroundings : Surroundings
sample_surroundings = record {
  cli = sample_cli;
  os = sample_system;
  paths = sample_paths;
  default_ring_name = codes "exec";
  nprocs = 8;
  init_trusted_setup = true;
  state = λ config args. sample_state;
  world = λ args. sample_world;
}

node_main_success_example : ((node_main sample_surroundings [] [] []).main_end ≡ exited 0) ↔ (
    (ring_start sample_surroundings sample_given [] ≡ go tt)
    × (true ≡ true)
    × Returned sample_surroundings (arguments_of sample_surroundings sample_given) [])
unfolding check_value try_parse_event_ring_config same_text
node_main_success_example =
    node_main_success sample_surroundings [] sample_given [] [] sample_cli-Checks refl refl

ring_start_lives_example : ring_start sample_surroundings sample_given [] ≢ dies
unfolding check_value try_parse_event_ring_config same_text
ring_start_lives_example =
    ring_start_lives sample_surroundings [] sample_given [] sample_cli-Checks refl refl
