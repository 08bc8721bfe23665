-- ===== src/Vm/Mce/Laws.antt =====
-- What a run of the tool reports: the time of the measured steps, and success exactly if every step
-- succeeded.
use monad_fork.Prelude.{
  ◌&&◌, if◌then◌else◌, ◌∙◌, sym, ap, append-nil, ◌+◌, ◌≡◌, refl, ◌↔◌, inl, inr, true, false, some,
  [], ◌∷◌, ◌++◌, arith, Bool, List, Option-cases, ℕ,
}
use monad_fork.Vm.Mce.{
  InstrumentationDevice, cachegrind, wall_clock, Phase, decode, parse, compile, execute, Probe,
  cachegrind_start, cachegrind_stop, timer_start, timer_pause, work, success, EvmResult, Arguments,
  Engine, executed, device_of,
}
use monad_fork.Vm.Mce.Instrumentable.{
  instrumented, decode_program, read_file, decode_file, decode_contents, call_message,
}
use monad_fork.Vm.Mce.Stages.{compiled, mce_main, return_code}
use monad_fork.Vm.Stopwatch.{Stopwatch, stopped, start_watch, pause_watch, elapsed}
use monad_fork.Node.Block.{Bytes}

module _ (duration : Phase → ℕ) where
  -- The clock and the stopwatch behind a trace: only the steps take time.
  unfoldable pub replay : List Probe → ℕ → Stopwatch → ℕ × Stopwatch
  replay [] now w = (now, w)
  replay (cachegrind_start ∷ probes) now w = replay probes now w
  replay (cachegrind_stop ∷ probes) now w = replay probes now w
  replay (timer_start ∷ probes) now w = replay probes now (start_watch now w)
  replay (timer_pause ∷ probes) now w = replay probes now (pause_watch now w)
  replay (work phase ∷ probes) now w = replay probes (now + duration phase) w

  -- The time that a step adds to the stopwatch.
  abbrev pub counted : Bool → InstrumentationDevice → Phase → ℕ
  counted false device phase = 0
  counted true cachegrind phase = 0
  counted true wall_clock phase = duration phase

  -- Behind a step the stopwatch does not run and has its time more.
  replay-instrumented :
      (on : Bool) (device : InstrumentationDevice) (phase : Phase) (probes : List Probe) (now : ℕ)
      (w : Stopwatch)
      → w.running ≡ false
      → (w' : Stopwatch) × (replay (instrumented on device phase ++ probes) now w
          ≡ replay probes (now + duration phase) w')
        × (w'.running ≡ false)
        × (w'.elapsed_time ≡ w.elapsed_time + counted on device phase)
  unfolding replay instrumented start_watch pause_watch
  replay-instrumented false device phase probes now w off = (w, refl, off, omega arith)
  replay-instrumented true cachegrind phase probes now w off = (w, refl, off, omega arith)
  replay-instrumented true wall_clock phase probes now w off =
      (pause_watch (now + duration phase) (start_watch now w), refl, ground arith, ground arith)

  module _ {Ir Code : Type 0} (engine : Engine Ir Code) (args : Arguments) where
    -- With `-w`, the time of the steps that are to be instrumented; without it none.
    abbrev pub measured_time : ℕ
    measured_time =
        (if args.wall_clock_time && args.instrument_decode then duration decode else 0)
        + (if args.wall_clock_time && args.instrument_parse then duration parse else 0)
        + (if args.wall_clock_time && args.instrument_compile then duration compile else 0)
        + (if args.wall_clock_time && args.instrument_execute then duration execute else 0)

    counted-device_of :
        (on : Bool) (phase : Phase)
        → counted on (device_of args) phase
          ≡ (if args.wall_clock_time && on then duration phase else 0)
    unfolding device_of
    counted-device_of false phase = ground arith
    counted-device_of true phase = ground arith

    -- The trace of a run that comes to the execution.
    executed-trace :
        (probes : List Probe) (r : EvmResult)
        → mce_main engine args ≡ (probes, executed r)
        → probes
          ≡ instrumented args.instrument_decode (device_of args) decode
            ++ (instrumented args.instrument_parse (device_of args) parse
                ++ (instrumented args.instrument_compile (device_of args) compile
                    ++ instrumented args.instrument_execute (device_of args) execute))
    unfolding mce_main decode_file decode_contents compiled
    executed-trace probes r e = elim (Option-cases (read_file engine args.filename)) [
      | inl p ↦ absurd (ground arith)
      | inr (contents, p) ↦
          elim (Option-cases (
            engine.compile_basic_blocks args.asm_log_file
              (engine.make_ir (decode_program engine args.filename contents)))) [
                | inl s ↦ absurd (ground arith)
                | inr (code, s) ↦ ground arith
              ]
    ]

    -- When a run comes to the execution, the stopwatch that dump_result reads stands still, at the sum
    -- of the times of those steps that were to be instrumented if `-w` is given, and at 0 without it.
    pub mce_main_time :
        (probes : List Probe) (r : EvmResult) (now later : ℕ)
        → mce_main engine args ≡ (probes, executed r)
        → elapsed later (replay probes now stopped).1 ≡ measured_time
    unfolding elapsed stopped replay
    mce_main_time probes r now later e =
        let device : InstrumentationDevice = device_of args in
        let (w₁, e₁, off₁, t₁) =
          replay-instrumented args.instrument_decode device decode
            (instrumented args.instrument_parse device parse
              ++ (instrumented args.instrument_compile device compile
                  ++ instrumented args.instrument_execute device execute))
            now stopped refl in
        let (w₂, e₂, off₂, t₂) =
          replay-instrumented args.instrument_parse device parse
            (instrumented args.instrument_compile device compile
              ++ instrumented args.instrument_execute device execute)
            (now + duration decode) w₁ off₁ in
        let (w₃, e₃, off₃, t₃) =
          replay-instrumented args.instrument_compile device compile
            (instrumented args.instrument_execute device execute)
            (now + duration decode + duration parse) w₂ off₂ in
        let (w₄, e₄, off₄, t₄) =
          replay-instrumented args.instrument_execute device execute []
            (now + duration decode + duration parse + duration compile) w₃ off₃ in
        let whole : (replay probes now stopped).1 ≡ w₄ =
          ap (λ p. (replay p now stopped).1) (executed-trace probes r e)
          ∙ ap (λ p. p.1) e₁
          ∙ ap (λ p. p.1) e₂
          ∙ ap (λ p. p.1) e₃
          ∙ ap (λ p. (replay p (now + duration decode + duration parse + duration compile) w₃).1)
              (sym (append-nil (instrumented args.instrument_execute device execute)))
          ∙ ap (λ p. p.1) e₄ in
        rw whole (
          ground (
            arith,
            off₄,
            t₁,
            t₂,
            t₃,
            t₄,
            counted-device_of args.instrument_decode decode,
            counted-device_of args.instrument_parse parse,
            counted-device_of args.instrument_compile compile,
            counted-device_of args.instrument_execute execute,
          ))

-- The return code is 0 exactly if the file could be read and compiled and its execution succeeded.
pub mce_main_success :
    {Ir Code : Type 0} (engine : Engine Ir Code) (args : Arguments)
    → (return_code (mce_main engine args).1 ≡ some 0) ↔ (
        (contents : Bytes) × (code : Code) × (read_file engine args.filename ≡ some contents)
        × (engine.compile_basic_blocks args.asm_log_file
              (engine.make_ir (decode_program engine args.filename contents))
            ≡ some code)
        × ((engine.enter call_message code).status_code ≡ success))
unfolding mce_main decode_file decode_contents compiled return_code
mce_main_success engine args = (
  λ e. elim (Option-cases (read_file engine args.filename)) [
    | inl p ↦ absurd (ground arith)
    | inr (contents, p) ↦
        elim (Option-cases (
          engine.compile_basic_blocks args.asm_log_file
            (engine.make_ir (decode_program engine args.filename contents)))) [
              | inl s ↦ absurd (ground arith)
              | inr (code, s) ↦ (contents, code, p, s, ground arith)
            ]
  ],
  λ (contents, code, p, s, good). ground arith,
)
