-- ===== src/Tests/Tools.antt =====
-- The theorems on the tools of the VM, at small inputs.
use monad_fork.Prelude.{◌≡◌, refl, ◌↔◌, true, false, none, some, [], ◌∷◌, List, ℕ}
use monad_fork.Text.{same_text, codes}
use monad_fork.Vm.Mce.Instrumentable.{read_file}
use monad_fork.Vm.Mce.Stages.{mce_main}
use monad_fork.Node.Block.{Bytes}
use monad_fork.Vm.Stopwatch.{milli, stopped, elapsed}
use monad_fork.Vm.Mce.{
  Phase, decode, parse, compile, execute, Probe, EvmResult, success, Arguments, Engine,
}
use monad_fork.Vm.Mce.Laws.{replay, measured_time, mce_main_time}
use monad_fork.Vm.ParserTool.{ToolArguments, Assembler}
use monad_fork.Vm.TypeCheck.{Checker, verdict, typed, check_main}
use monad_fork.Vm.TypeCheck.Laws.{Judged, check_main_iff}

abbrev sample_duration : Phase → ℕ
sample_duration decode = 5
sample_duration parse = 70
sample_duration compile = 900
sample_duration execute = 3000

abbrev sample_result : EvmResult
sample_result = record { status_code = success; output_size = 0; loaded = 0 }

abbrev sample_engine : Engine Bytes Bytes
sample_engine = record {
  stdin_contents = [];
  file_contents = some;
  is_space = λ c. false;
  extension = λ name. codes ".mevm";
  parse_opcodes = λ s. s;
  parse_hex_program = λ s. [];
  make_ir = λ s. s;
  compile_basic_blocks = λ asm_log_file ir. some ir;
  enter = λ message code. sample_result;
}

-- Parsing and execution are measured, by the wall clock.
abbrev sample_arguments : Arguments
sample_arguments = record {
  filename = codes "a.mevm";
  revision = codes "latest";
  timeunit_s = codes "ms";
  timeunit = milli;
  instrument_decode = false;
  instrument_parse = true;
  instrument_compile = false;
  instrument_execute = true;
  asm_log_file = none;
  wall_clock_time = true;
  report_result = false;
}

abbrev sample_probes : List Probe
sample_probes = (mce_main sample_engine sample_arguments).0

mce_main_time_example :
    elapsed 9999 (replay sample_duration sample_probes 100 stopped).1
    ≡ measured_time sample_duration sample_engine sample_arguments
unfolding mce_main read_file same_text
mce_main_time_example =
    mce_main_time sample_duration sample_engine sample_arguments sample_probes sample_result 100
      9999 refl

abbrev sample_assembler : Assembler
sample_assembler = record {
  parse_opcodes = λ validate s. 0 ∷ s;
  show_opcodes = λ s. s;
  contents = λ name. name;
  stdin_contents = [];
  max_code_size = 9;
}

abbrev sample_tool_arguments : ToolArguments
sample_tool_arguments = record {
  verbose = true;
  binary = false;
  from_stdin = true;
  compile = true;
  validate = true;
  filenames = codes "a" ∷ codes "b" ∷ [];
}

-- A directory with a file that has a block, a directory and an empty contract.
abbrev sample_checker : Checker
sample_checker = record {
  is_directory = λ dir. true;
  entries = λ dir.
      record { path = codes "x"; is_regular_file = true }
      ∷ record { path = codes "y"; is_regular_file = false }
      ∷ [];
  walk_error = λ dir. none;
  walk_throws = λ dir. false;
  open_file = some;
  reads = λ path. true;
  type_check = λ contract. true;
  block_kinds = λ contract. 2 ∷ [];
}

check_main_iff_example :
    (check_main sample_checker (codes "d" ∷ []) ≡ (verdict (codes "x") (typed 2) ∷ [], some 0)) ↔ (
      (sample_checker.is_directory (codes "d") ≡ true)
      × (sample_checker.walk_error (codes "d") ≡ none)
      × (sample_checker.walk_throws (codes "d") ≡ false)
      × Judged sample_checker
          (sample_checker.entries (codes "d"))
          (verdict (codes "x") (typed 2) ∷ []))
check_main_iff_example =
    check_main_iff sample_checker (codes "d") (verdict (codes "x") (typed 2) ∷ [])
