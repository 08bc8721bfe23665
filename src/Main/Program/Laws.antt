-- ===== src/Main/Program/Laws.antt =====
-- How main ends.
use monad_fork.Main.Program.{
  initial_state, after_words, node_main, with_snapshot, with_chain, snapshot_number, run_options,
  after_start, Surroundings, exited, after_run,
}
use monad_fork.Main.Start.Laws.{Lives, start_event_ring-Lives}
use monad_fork.Prelude.{
  ap, ◌≢◌, ◌⊎◌, subst, Option-cases, ◌↔◌, List, All, ◌≡◌, refl, ◌∙◌, inl, inr, true, some, arith, ℕ,
  sym, Bool, Option, Bool-cases,
}
use monad_fork.Main.{ChainConfig, exit_code}
use monad_fork.Node.Externals.{History}
use monad_fork.Node.Ending.{Ending, running, aborted, failed, returned, End}
use monad_fork.Main.Run.{run_node}
use monad_fork.Main.Options.{
  NodeArguments, default_node_arguments, node_options, node_flags, check_value, assign_given,
}
use monad_fork.Main.Options.Laws.{IsChecked, assign_given-IsAccepted}
use monad_fork.Text.Cli11.{Given, sets, Cli11}
use monad_fork.Event.{try_parse_event_ring_config}
use monad_fork.Node.Block.{Bytes}
use monad_fork.Main.Start.{Startup, go, exit_with, dies, start_event_ring}
use monad_fork.Event.Files.{Log}
use monad_fork.Event.Laws.{is_parsed}

Ending-cases :
    (e : Ending) → ((ntxs : ℕ) × (gas : ℕ) × (e ≡ returned ntxs gas)) ⊎ (exit_code e ≢ some 0)
unfolding exit_code
Ending-cases (returned ntxs gas) = inl (ntxs, gas, refl)
Ending-cases (failed e) = inr (λ p. ground arith)
Ending-cases running = inr (λ p. ground arith)
Ending-cases aborted = inr (λ p. ground arith)

after_run_success :
    (args : NodeArguments) (log : Log) (e : End)
    → ((after_run args log e).main_end ≡ exited 0) ↔ (exit_code e.ending ≡ some 0)
unfolding after_run
after_run_success args log e = elim (Option-cases (exit_code e.ending)) [
  | inl p ↦ (λ q. absurd (ground arith), λ q. absurd (ground arith))
  | inr (code, p) ↦ (λ q. ground arith, λ q. ground arith)
]

-- The library CLI11 checks the values that it hands on.
abbrev pub Checks : Cli11 → Type 0
Checks cli =
    (options flags : List Bytes) (check : Bytes → Bytes → Bool) (argv : List Bytes)
    (given : List Given)
    → cli.parse options flags check argv ≡ sets given
    → All (IsChecked check) given

module _ (env : Surroundings) where
  abbrev pub arguments_of : List Given → NodeArguments
  arguments_of given = assign_given given (default_node_arguments env.nprocs)

  abbrev pub ring_start : List Given → Log → Startup (Unit {0})
  ring_start given log =
      (start_event_ring env.os env.default_ring_name (arguments_of given).exec_event_ring_config
        log).0

  ring_start-Lives :
      (argv : List Bytes) (given : List Given) (log : Log)
      → Checks env.cli
      → is_parsed (try_parse_event_ring_config env.default_ring_name) ≡ true
      → env.cli.parse node_options node_flags (check_value env.paths) argv ≡ sets given
      → Lives (ring_start given log)
  ring_start-Lives argv given log checks good parsed_ =
      start_event_ring-Lives env.os env.default_ring_name
        (arguments_of given).exec_event_ring_config log good
        (assign_given-IsAccepted env.paths given (default_node_arguments env.nprocs)
          (checks node_options node_flags (check_value env.paths) argv given parsed_) tt)

  -- With values that CLI11 has checked, and a default name of the library that is a configuration,
  -- the assert on the configuration of the ring holds, and the set-up of the recorder does not fail an
  -- assert either: main goes on or gives up.
  pub ring_start_lives :
      (argv : List Bytes) (given : List Given) (log : Log)
      → Checks env.cli
      → is_parsed (try_parse_event_ring_config env.default_ring_name) ≡ true
      → env.cli.parse node_options node_flags (check_value env.paths) argv ≡ sets given
      → ring_start given log ≢ dies
  ring_start_lives argv given log checks good parsed_ e =
      subst Lives e (ring_start-Lives argv given log checks good parsed_)

  -- Whether the run of the node behind the start returned a result.
  abbrev pub Returned : NodeArguments → History → Type 0
  Returned args h =
      (chain : ChainConfig) × (snapshot : Option ℕ) × (ntxs : ℕ) × (gas : ℕ) × (args.chain_config
        ≡ some chain)
      × (snapshot_number env.paths args.snapshot ≡ some snapshot)
      × ((run_node (env.world args) (run_options args chain snapshot) (initial_state env args)
            h).ending
          ≡ returned ntxs gas)

  pub with_chain-some :
      (args : NodeArguments) (log : Log) (h : History) (chain : ChainConfig) (snapshot : Option ℕ)
      → args.chain_config ≡ some chain
      → snapshot_number env.paths args.snapshot ≡ some snapshot
      → with_chain env args log h args.chain_config
        ≡ after_run args log
            (run_node (env.world args) (run_options args chain snapshot) (initial_state env args) h)
  unfolding with_chain
  with_chain-some args log h chain snapshot p q = rw (p, with_chain, q, with_snapshot) refl

  with_chain_success :
      (args : NodeArguments) (log : Log) (h : History)
      → (with_chain env args log h args.chain_config).main_end ≡ exited 0
      → Returned args h
  unfolding with_chain
  with_chain_success args log h e = elim (Option-cases args.chain_config) [
    | inl p ↦ absurd (ground arith)
    | inr (chain, p) ↦ elim (Option-cases (snapshot_number env.paths args.snapshot)) [
      | inl q ↦ absurd (ground arith)
      | inr (snapshot, q) ↦
          let r =
            (after_run_success args log (
                run_node (env.world args) (run_options args chain snapshot) (initial_state env args)
                  h)).0
              (sym (ap (λ m. m.main_end) (with_chain-some args log h chain snapshot p q)) ∙ e) in
          elim (Ending-cases
            (run_node (env.world args) (run_options args chain snapshot) (initial_state env args)
              h).ending) [
                | inl (ntxs, gas, x) ↦ (chain, snapshot, ntxs, gas, p, q, x)
                | inr no_ ↦ absurd (no_ r)
              ]
    ]
  ]

  with_chain-Returned :
      (args : NodeArguments) (log : Log) (h : History)
      → Returned args h
      → (with_chain env args log h args.chain_config).main_end ≡ exited 0
  unfolding exit_code
  with_chain-Returned args log h (chain, snapshot, ntxs, gas, p, q, x) =
      ap (λ m. m.main_end) (with_chain-some args log h chain snapshot p q)
      ∙ (after_run_success args log (
            run_node (env.world args) (run_options args chain snapshot) (initial_state env args)
              h)).1
          (ap exit_code x)

  after_start_success :
      (args : NodeArguments) (h : History) (s : Startup (Unit {0})) (log : Log)
      → Lives s
      → ((after_start env args h (s, log)).main_end ≡ exited 0)
        ↔ ((s ≡ go tt) × (env.init_trusted_setup ≡ true) × Returned args h)
  unfolding after_start
  after_start_success args h (exit_with code) log lives =
      (λ e. absurd (ground arith), λ (e, _, _). absurd (ground arith))
  after_start_success args h dies log lives = absurd lives
  after_start_success args h (go u) log lives = elim (Bool-cases env.init_trusted_setup) [
    | inl p ↦
        let same : (after_start env args h (go u, log)).main_end
            ≡ (with_chain env args log h args.chain_config).main_end =
          rw (after_start, p) refl in
        (
          λ e. (refl, p, with_chain_success args log h (sym same ∙ e)),
          λ (_, _, r). same ∙ with_chain-Returned args log h r,
        )
    | inr p ↦ (λ e. absurd (ground arith), λ (_, e, _). absurd (ground arith))
  ]

  -- Where the command line is parsed, main exits with 0 exactly if the set-up of the ring goes on, the
  -- trusted set-up of KZG succeeds, a chain is chosen, a snapshot that is named has a number, and the
  -- run of the node returns a result; under the same hypotheses on CLI11 and on the default name.
  pub node_main_success :
      (argv : List Bytes) (given : List Given) (log : Log) (h : History)
      → Checks env.cli
      → is_parsed (try_parse_event_ring_config env.default_ring_name) ≡ true
      → env.cli.parse node_options node_flags (check_value env.paths) argv ≡ sets given
      → ((node_main env argv log h).main_end ≡ exited 0) ↔ (
          (ring_start given log ≡ go tt)
          × (env.init_trusted_setup ≡ true)
          × Returned (arguments_of given) h)
  unfolding node_main after_words
  node_main_success argv given log h checks good parsed_ =
      rw (node_main, parsed_, after_words)
        (after_start_success (arguments_of given) h (ring_start given log)
          (start_event_ring env.os env.default_ring_name (arguments_of given).exec_event_ring_config
            log).1
          (ring_start-Lives argv given log checks good parsed_))
