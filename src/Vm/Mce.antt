-- ===== src/Vm/Mce.antt =====
-- cmd/vm/mce: a contract is decoded, parsed, compiled and executed, and each of the four steps may be
-- measured. The steps are the library's; what this program adds is kept as a trace.
pub mod Instrumentable
pub mod Stages
pub mod Options
pub mod Main
pub mod Laws
use monad_fork.Prelude.{
  true, false, ◌&&◌, none, some, [], ◌∷◌, ◌++◌, ◌==◌, if◌then◌else◌, Bool, not, Option, List, ℕ,
}
use monad_fork.Text.{codes}
use monad_fork.Vm.Stopwatch.{Timeunit, short_string_of_timeunit, Stopwatch, elapsed_in}
use monad_fork.Node.Block.{Bytes}

-- instrumentation_device.hpp
pub data InstrumentationDevice : Type 0 where
  cachegrind wall_clock : InstrumentationDevice

pub data Phase : Type 0 where
  decode parse compile execute : Phase

pub data Probe : Type 0 where
  cachegrind_start cachegrind_stop timer_start timer_pause : Probe
  work : Phase → Probe

-- evmc_status_code, as far as it is told apart
pub data StatusCode : Type 0 where
  success failure internal_error out_of_gas stack_overflow stack_underflow : StatusCode
  other_status : ℕ → StatusCode

-- evmc::Result; the bytes that are loaded are a number
pub record EvmResult : Type 0 where
  pub status_code : StatusCode
  pub output_size : ℕ
  pub loaded : ℕ

pub record Arguments : Type 0 where
  pub filename : Bytes
  pub revision : Bytes
  pub timeunit_s : Bytes
  pub timeunit : Timeunit
  pub instrument_decode : Bool
  pub instrument_parse : Bool
  pub instrument_compile : Bool
  pub instrument_execute : Bool
  pub asm_log_file : Option Bytes
  pub wall_clock_time : Bool
  pub report_result : Bool

-- evmc_message; an address or a word is a number, and no code is given.
pub record EvmcMessage : Type 0 where
  pub flags : ℕ
  pub depth : ℕ
  pub gas : ℕ
  pub recipient : ℕ
  pub sender : ℕ
  pub input : Bytes
  pub value : ℕ
  pub create2_salt : ℕ
  pub code_address : ℕ

-- The libraries, the standard input and the files; `Ir` and `Code` are what they hand on, and there
-- is no code where a compilation failed. A file that cannot be opened or read is `none`.
pub record Engine (Ir Code : Type 0) : Type 0 where
  pub stdin_contents : Bytes
  pub file_contents : Bytes → Option Bytes
  pub is_space : ℕ → Bool
  pub extension : Bytes → Bytes
  pub parse_opcodes : Bytes → Bytes
  pub parse_hex_program : Bytes → Bytes
  pub make_ir : Bytes → Ir
  pub compile_basic_blocks : Option Bytes → Ir → Option Code
  pub enter : EvmcMessage → Code → EvmResult

-- The value of the field "result" or "error".
pub data Shown : Type 0 where
  empty_output : Shown
  output : ℕ → Shown
  error : Bytes → Shown

pub record Report : Type 0 where
  pub time : Option (ℕ × Bytes)
  pub result : Shown

unfoldable pub shown : EvmResult → Shown
shown r = elim r.status_code [
  | success ↦ if r.output_size == 0 then empty_output else output r.loaded
  | failure ↦ error (codes "failure")
  | internal_error ↦ error (codes "internal error")
  | out_of_gas ↦ error (codes "out of gas")
  | stack_overflow ↦ error (codes "stack overflow")
  | stack_underflow ↦ error (codes "stack underflow")
  | other_status n ↦ error (codes "unknown failure")
]

-- The object that is printed, with the reading of the stopwatch.
unfoldable pub dump_result : Arguments → ℕ → Stopwatch → EvmResult → Option Report
unfolding shown elapsed_in short_string_of_timeunit
dump_result args now watch r =
    if not args.report_result && not args.wall_clock_time
    then none
    else some (record {
      time =
          if args.wall_clock_time
          then some (elapsed_in args.timeunit now watch, short_string_of_timeunit args.timeunit)
          else none;
      result = shown r;
    })

-- How mce_main ends: an exception, one of the two messages, or the result of the execution.
pub data Finished : Type 0 where
  thrown parsing_failed compilation_failed : Finished
  executed : EvmResult → Finished

unfoldable pub device_of : Arguments → InstrumentationDevice
device_of args = if args.wall_clock_time then wall_clock else cachegrind
