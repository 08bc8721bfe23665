-- ===== src/Main/Start/Laws.antt =====
-- The set-up of the event ring ends in an orderly way.
use monad_fork.Prelude.{
  ℕ, ◌≡◌, refl, ◌∙◌, inl, inr, true, false, none, some, [], ◌∷◌, ◌++◌, arith, ◌==◌, ◌!=◌, sym, Bool,
  Option, Bool-cases,
}
use monad_fork.Event.{
  EventRingConfig, ParsedConfig, parsed, bad_format, bad_descriptors_shift, bad_payload_buf_shift,
  try_parse_event_ring_config,
}
use monad_fork.Node.Outcome.{ok}
use monad_fork.Node.Block.{Bytes}
use monad_fork.Main.Options.{check_event_ring}
use monad_fork.Main.Start.{Startup, go, exit_with, dies, after_init, init_parsed, start_event_ring}
use monad_fork.Main.Options.Laws.{IsAccepted}
use monad_fork.Event.Ring.{contains_slash, init_at, init_execution_event_recorder}
use monad_fork.Event.Files.{Log, System}
use monad_fork.Event.Laws.{is_parsed}

-- The set-up of the ring goes on or gives up with the exit code 1.
abbrev pub Lives : Startup (Unit {0}) → Type 0
Lives (go u) = Unit
Lives (exit_with code) = code ≡ 1
Lives dies = ⊥

recorder_ok :
    (os : System) (cfg : EventRingConfig) (log : Log)
    → (b : Bool) × (rc : ℕ) × ((init_execution_event_recorder os cfg false log).0 ≡ ok (b, rc))
unfolding init_execution_event_recorder
recorder_ok os cfg log =
    let named = record cfg {
      event_ring_spec = (os.open_ring_dir log).1 ++ b'/' ∷ cfg.event_ring_spec;
    } in
    let here : ℕ = (init_at os cfg log).0 in
    let there : ℕ = (init_at os named log).0 in
    elim (Bool-cases (contains_slash cfg.event_ring_spec)) [
      | inl p ↦ (here == 0, here, ground arith)
      | inr p ↦ elim (Bool-cases ((os.open_ring_dir log).0 != 0)) [
        | inl q ↦ (false, (os.open_ring_dir log).0, ground arith)
        | inr q ↦ (there == 0, there, ground arith)
      ]
    ]

after_init-Lives : (b : Bool) (rc : ℕ) → Lives (after_init (ok (b, rc)))
unfolding after_init
after_init-Lives b rc = elim (Bool-cases (rc != 0)) [ inl p ↦ rw p refl | inr p ↦ rw p tt ]

init_parsed-Lives :
    (os : System) (c : ParsedConfig) (log : Log)
    → is_parsed c ≡ true
    → Lives (init_parsed os c log).0
unfolding init_parsed
init_parsed-Lives os (parsed cfg) log e =
    let (b, rc, p) = recorder_ok os cfg log in rw p (after_init-Lives b rc)
init_parsed-Lives os bad_format log e = absurd (ground arith)
init_parsed-Lives os (bad_descriptors_shift t) log e = absurd (ground arith)
init_parsed-Lives os (bad_payload_buf_shift t) log e = absurd (ground arith)

check_event_ring-is_parsed :
    (s : Bytes) → check_event_ring s ≡ is_parsed (try_parse_event_ring_config s)
unfolding check_event_ring
check_event_ring-is_parsed s = refl

pub start_event_ring-Lives :
    (os : System) (name : Bytes) (o : Option Bytes) (log : Log)
    → is_parsed (try_parse_event_ring_config name) ≡ true
    → IsAccepted o
    → Lives (start_event_ring os name o log).0
unfolding start_event_ring
start_event_ring-Lives os name none log good held = tt
start_event_ring-Lives os name (some []) log good held =
    init_parsed-Lives os (try_parse_event_ring_config name) log good
start_event_ring-Lives os name (some (c ∷ s)) log good held =
    init_parsed-Lives os (try_parse_event_ring_config (c ∷ s)) log
      (sym (check_event_ring-is_parsed (c ∷ s)) ∙ held)
