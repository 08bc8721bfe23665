-- ===== src/Tests/Shell.antt =====
-- The theorems on the interactive reader, at a small database.
use monad_fork.Prelude.{List, ◌+◌, ◌≡◌, true, false, some, [], ◌∷◌, arith, u64_max}
use monad_fork.Cli.Report.{print_stats}
use monad_fork.Cli.NodeStats.{Metadata, down, up, clone}
use monad_fork.Cli.Machine.{table, TrieDb, Machine, initial, section_prefix}
use monad_fork.Cli.Report.Laws.{print_stats-Perm}
use monad_fork.Cli.Program.{Terminal, cli_main}
use monad_fork.Cli.Program.Laws.{hold, nothing_held, cli_main-hold}
use monad_fork.Text.Cli11.{option_is, number_is, sets}
use monad_fork.Text.{codes}
use monad_fork.Node.Outcome.{ok}
use monad_fork.Cli.Actions.{Decoders}
use monad_fork.Cli.Machine.Invariant.{IsDb, IsConsistent}
use monad_fork.Cli.Position.{
  Move, version, section, position, run_moves, go_all, nowhere, run_moves_refines,
}
use mathlib.Core.List.Perm

abbrev sample_db : TrieDb
sample_db = record {
  earliest_version = 1;
  latest_version = 9;
  find = λ key v. some (record { contents = []; value = some (5 ∷ []) });
  proposal_block_ids = λ v. 77 ∷ [];
  proposal_prefix = λ id. 2 ∷ id ∷ [];
  finalized_nibbles = 1 ∷ [];
  invalid_block_num = u64_max;
  invalid_nibble = 255;
  state_nibble = 0;
  code_nibble = 1;
  receipt_nibble = 2;
  null_root = 0;
  to_bytes = λ b. 0;
}

abbrev sample_decoders : Decoders
sample_decoders = record {
  parse_bytes32 = λ b. some 77;
  from_hex = some;
  keccak256 = λ b. b;
  format_slot = λ n. n ∷ [];
  encode_unsigned = λ n. n ∷ [];
  nibbles = λ b. b;
  decode_account = some;
  decode_storage = some;
  decode_receipt = some;
  visits_of =
      λ cursor v. down 0 false ∷ clone 0 ∷ down 0 true ∷ down 1 true ∷ up 0 ∷ up 1 ∷ up 0 ∷ [];
  traverses = λ cursor v. true;
  format_count = λ n. (48 + n) ∷ [];
  format_percentage = λ n total. (48 + n) ∷ [];
}

sample-IsDb : IsDb sample_db
unfolding section_prefix
sample-IsDb = record {
  prefixes = λ id. ground arith;
  state_valid = omega arith;
  code_valid = omega arith;
  receipt_valid = omega arith;
}

-- At the receipts of the finalized section of version 5.
abbrev at_receipts : Machine
at_receipts = record {
  curr_version = 5;
  curr_block_id = 0;
  curr_section_prefix = 1 ∷ [];
  curr_table_id = 2;
  state = table;
}

abbrev two_paths : Metadata
two_paths = (false ∷ [], 1) ∷ (true ∷ false ∷ [], 2) ∷ []

print_stats-Perm_example :
    print_stats sample_decoders two_paths
    ≡ print_stats sample_decoders ((true ∷ false ∷ [], 2) ∷ (false ∷ [], 1) ∷ [])
print_stats-Perm_example =
    print_stats-Perm sample_decoders two_paths _
      (Perm.swap (true ∷ false ∷ [], 2) (false ∷ [], 1) [])

run_moves_refines_example :
    let moves = version 5 ∷ section 0 ∷ Move.table 2 ∷ version 3 ∷ Move.up ∷ [] in
    (m : Machine) × (run_moves sample_db moves (initial sample_db) ≡ ok m)
    × IsConsistent sample_db m
    × (position sample_db m ≡ go_all sample_db moves nowhere)
run_moves_refines_example =
    run_moves_refines sample_db (version 5 ∷ section 0 ∷ Move.table 2 ∷ version 3 ∷ Move.up ∷ [])
      sample-IsDb (omega arith, (tt, (tt, (omega arith, (tt, tt)))))

-- The command line asks for a dump of version 8.
abbrev sample_terminal : Terminal
sample_terminal = record {
  cli = record {
    parse = λ options flags check argv. sets (
        option_is (codes "--db") (codes "d")
        ∷ option_is (codes "--dump_binary_snapshot") (codes "out")
        ∷ number_is (codes "--version") 8
        ∷ []);
    exit = λ e. 106;
    existing_file = λ name. true;
  };
  decoders = sample_decoders;
  open_db = λ paths. sample_db;
  isatty = true;
  lines = [];
  dump_snapshot = λ paths cpu v dir. true;
  existing_directory = λ name. true;
  uninitialized = 0;
}

cli_main-hold_example : hold (cli_main sample_terminal []).0 nothing_held ≡ nothing_held
cli_main-hold_example = cli_main-hold sample_terminal []
