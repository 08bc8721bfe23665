-- ===== src/Vm/Mce/Stages.antt =====
-- mce_main: the four steps one after the other.
use monad_fork.Prelude.{none, some, [], ◌++◌, ℕ, Option, List}
use monad_fork.Vm.Mce.{
  Probe, success, Arguments, Engine, Finished, thrown, parsing_failed, compilation_failed, executed,
  device_of,
}
use monad_fork.Vm.Mce.Instrumentable.{decode_file, parse_code, compile_ir, execute_code}
use monad_fork.Node.Block.{Bytes}

module _ {Ir Code : Type 0} (engine : Engine Ir Code) (args : Arguments) where
  unfoldable pub execute_stage : Code → List Probe × Finished
  unfolding execute_code device_of
  execute_stage entry =
      let (probes, result) = execute_code engine args.instrument_execute (device_of args) entry in
      (probes, executed result)

  unfoldable pub compiled : Option Code → List Probe × Finished
  unfolding execute_stage
  compiled none = ([], compilation_failed)
  compiled (some entry) = execute_stage entry

  unfoldable pub parsed_ir : Option Ir → List Probe × Finished
  unfolding compiled compile_ir device_of
  parsed_ir none = ([], parsing_failed)
  parsed_ir (some ir) =
      let (here, code) =
        compile_ir engine args.instrument_compile (device_of args) args.asm_log_file ir in
      let (probes, end_) = compiled code in (here ++ probes, end_)

  unfoldable pub decoded : Option (List Probe × Bytes) → List Probe × Finished
  unfolding parsed_ir parse_code device_of
  decoded none = ([], thrown)
  decoded (some (first, bytes)) =
      let (here, ir) = parse_code engine args.instrument_parse (device_of args) bytes in
      let (probes, end_) = parsed_ir ir in (first ++ (here ++ probes), end_)

  unfoldable pub mce_main : List Probe × Finished
  unfolding decoded decode_file device_of
  mce_main = decoded (decode_file engine args.instrument_decode (device_of args) args.filename)

-- The return code; an exception has none.
unfoldable pub return_code : Finished → Option ℕ
return_code thrown = none
return_code parsing_failed = some 1
return_code compilation_failed = some 1
return_code (executed r) = elim r.status_code [ success ↦ some 0 | _ ↦ some 1 ]
