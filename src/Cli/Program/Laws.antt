-- ===== src/Cli/Program/Laws.antt =====
-- A run of main opens what it closes, and no snapshot is written or read while the database is open.
-- The databases open for reading, and the contexts of a dump, behind the calls.
use monad_fork.Cli.Program.{
  interactive_impl, run_mode, CliArguments, default_cli_arguments, cli_options, cli_flags,
  set_options, DbCall, opened_read_only, closed_read_only, printed_summary, ran_interactive,
  not_a_terminal, created_context, dumped, destroyed_context, loaded, Terminal, run_cli, run_words,
  check_directory, cli_main,
}
use monad_fork.Prelude.{
  ◌+◌, ◌-◌, ◌≡◌, refl, inl, inr, [], ◌∷◌, arith, ℕ, List, Bool-cases, Option-cases,
}
use monad_fork.Node.Block.{Bytes}
use monad_fork.Text.Cli11.{call_for_help, required_error, other_error, Words, sets, fails}

pub record Held : Type 0 where
  pub readers : ℕ
  pub contexts : ℕ
  -- dumps and loads made while there was a reader
  pub clashes : ℕ

unfoldable pub hold : List DbCall → Held → Held
hold [] s = s
hold (opened_read_only paths ∷ calls) s = hold calls (record s { readers = s.readers + 1 })
hold (closed_read_only paths ∷ calls) s = hold calls (record s { readers = s.readers - 1 })
hold (created_context dir v ∷ calls) s = hold calls (record s { contexts = s.contexts + 1 })
hold (destroyed_context dir ∷ calls) s = hold calls (record s { contexts = s.contexts - 1 })
hold (dumped paths cpu v good ∷ calls) s = hold calls (record s { clashes = s.clashes + s.readers })
hold (loaded paths cpu dir v ∷ calls) s = hold calls (record s { clashes = s.clashes + s.readers })
hold (printed_summary ∷ calls) s = hold calls s
hold (ran_interactive r ∷ calls) s = hold calls s
hold (not_a_terminal ∷ calls) s = hold calls s

abbrev pub nothing_held : Held
nothing_held = record { readers = 0; contexts = 0; clashes = 0 }

module _ (env : Terminal) where
  run_cli-hold : (args : CliArguments) → hold (run_cli env args).0 nothing_held ≡ nothing_held
  unfolding run_cli hold
  run_cli-hold args = elim (Bool-cases args.is_interactive) [
    | inl p ↦ elim (Bool-cases env.isatty) [
      | inl q ↦ rw (run_cli, run_mode, p, interactive_impl, q) refl
      | inr q ↦ rw (run_cli, run_mode, p, interactive_impl, q) refl
    ]
    | inr p ↦ elim (Option-cases args.dump_binary_snapshot) [
      | inr (dir, q) ↦ ground arith
      | inl q ↦ elim (Option-cases args.load_binary_snapshot) [
        | inr (dir, r) ↦ ground arith
        | inl r ↦ ground arith
      ]
    ]
  ]

  run_words-hold : (words : Words) → hold (run_words env words).0 nothing_held ≡ nothing_held
  unfolding run_words hold
  run_words-hold (fails call_for_help) = refl
  run_words-hold (fails required_error) = refl
  run_words-hold (fails (other_error code)) = refl
  run_words-hold (sets given) =
      run_cli-hold (set_options given (default_cli_arguments env.uninitialized))

  -- Whatever the command line, a run leaves no database and no context open, and no snapshot is dumped
  -- or loaded while the program itself has the database open for reading.
  pub cli_main-hold : (argv : List Bytes) → hold (cli_main env argv).0 nothing_held ≡ nothing_held
  unfolding cli_main run_words hold
  cli_main-hold argv =
      run_words-hold (env.cli.parse cli_options cli_flags (check_directory env) argv)
