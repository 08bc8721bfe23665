-- ===== src/Vm/Mce/Instrumentable.antt =====
-- cmd/vm/mce/src: the classes InstrumentableDecoder, InstrumentableParser, InstrumentableCompiler and
-- InstrumentableVM. The template argument `instrument` is the first argument.
use monad_fork.Prelude.{none, true, false, some, [], ◌∷◌, if◌then◌else◌, Bool, Option, List}
use monad_fork.Text.{codes, same_text}
use monad_fork.Vm.Mce.{
  InstrumentationDevice, cachegrind, wall_clock, Phase, decode, parse, compile, execute, Probe,
  cachegrind_start, cachegrind_stop, timer_start, timer_pause, work, EvmResult, EvmcMessage, Engine,
}
use monad_fork.Node.Block.{Bytes}

-- A call of the library, between the marks of the device if it is instrumented. The newest entry
-- stands last.
unfoldable pub instrumented : Bool → InstrumentationDevice → Phase → List Probe
instrumented false device phase = work phase ∷ []
instrumented true cachegrind phase = cachegrind_start ∷ work phase ∷ cachegrind_stop ∷ []
instrumented true wall_clock phase = timer_start ∷ work phase ∷ timer_pause ∷ []

abbrev pub call_message : EvmcMessage
call_message = record {
  flags = 0;
  depth = 0;
  gas = 150000000;
  recipient = 0;
  sender = 0;
  input = [];
  value = 0;
  create2_salt = 0;
  code_address = 0;
}

module _ {Ir Code : Type 0} (engine : Engine Ir Code) where
  -- `std::cin >> c` leaves out white space.
  unfoldable pub read_stdin : Bytes → Bytes
  read_stdin [] = []
  read_stdin (c ∷ s) = let rest = read_stdin s in if engine.is_space c then rest else c ∷ rest

  unfoldable pub read_file : Bytes → Option Bytes
  unfolding read_stdin same_text
  read_file filename =
      if same_text filename (codes "-")
      then some (read_stdin engine.stdin_contents)
      else engine.file_contents filename

  -- By the file's extension.
  unfoldable pub decode_program : Bytes → Bytes → Bytes
  unfolding same_text
  decode_program filename contents =
      if same_text (engine.extension filename) (codes ".mevm")
      then engine.parse_opcodes contents
      else engine.parse_hex_program contents

  unfoldable pub decode_contents :
      Bool → InstrumentationDevice → Bytes → Option Bytes → Option (List Probe × Bytes)
  unfolding decode_program instrumented
  decode_contents on device filename none = none
  decode_contents on device filename (some contents) =
      some (instrumented on device decode, decode_program filename contents)

  -- Reading the file is not measured; `none` is its exception.
  unfoldable pub decode_file : Bool → InstrumentationDevice → Bytes → Option (List Probe × Bytes)
  unfolding read_file decode_contents
  decode_file on device filename = decode_contents on device filename (read_file filename)

  -- The optional is never empty.
  unfoldable pub parse_code : Bool → InstrumentationDevice → Bytes → List Probe × Option Ir
  unfolding instrumented
  parse_code on device code = (instrumented on device parse, some (engine.make_ir code))

  unfoldable pub compile_ir :
      Bool → InstrumentationDevice → Option Bytes → Ir → List Probe × Option Code
  unfolding instrumented
  compile_ir on device asm_log_file ir =
      (instrumented on device compile, engine.compile_basic_blocks asm_log_file ir)

  unfoldable pub execute_code : Bool → InstrumentationDevice → Code → List Probe × EvmResult
  unfolding instrumented
  execute_code on device entry = (instrumented on device execute, engine.enter call_message entry)
