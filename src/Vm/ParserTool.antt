-- ===== src/Vm/ParserTool.antt =====
-- cmd/vm/parser/parser_tool.cpp: opcodes as text to bytecode, and back.
pub mod Options
pub mod Laws
use monad_fork.Node.Block.{Bytes}
use monad_fork.Prelude.{
  true, false, none, some, [], ◌∷◌, ◌++◌, if◌then◌else◌, Bool, Option, List, leb, length, ℕ,
}
use monad_fork.Text.{codes}

pub record ToolArguments : Type 0 where
  pub verbose : Bool
  pub binary : Bool
  pub from_stdin : Bool
  pub compile : Bool
  pub validate : Bool
  pub filenames : List Bytes

-- What the tool does to the outside; the standard output is one stream.
pub data Effect : Type 0 where
  logged_parsing logged_writing logged_printing : Bytes → Effect
  wrote_file : Bytes → Bytes → Effect
  wrote_stdout printed : Bytes → Effect
  -- the bytecode, and the file for the assembly
  compiled_to : Bytes → Bytes → Effect

-- The library, and the contents of the files and of the standard input. A file that cannot be read
-- is empty.
pub record Assembler : Type 0 where
  pub parse_opcodes : Bool → Bytes → Bytes
  pub show_opcodes : Bytes → Bytes
  pub contents : Bytes → Bytes
  pub stdin_contents : Bytes
  pub max_code_size : ℕ

module _ (lib : Assembler) (args : ToolArguments) where
  abbrev if_verbose : Effect → List Effect
  if_verbose e = if args.verbose then e ∷ [] else []

  -- The stream that is written to is a file or the standard output.
  unfoldable pub do_parse : Bytes → Bytes → Bytes → (Bytes → Effect) → Bytes × List Effect
  do_parse filename s outfile write =
      let opcodes = lib.parse_opcodes args.validate s in
      (
        opcodes,
        if_verbose (logged_parsing filename)
            ++ (if_verbose (logged_writing outfile) ++ write opcodes ∷ []),
      )

  unfoldable pub do_binary : Bytes → Bytes → List Effect
  do_binary filename opcodes =
      if_verbose (logged_printing filename) ++ printed (lib.show_opcodes opcodes) ∷ []

  abbrev if_compile : Bytes → Bytes → List Effect
  if_compile opcodes asm = if args.compile then compiled_to opcodes asm ∷ [] else []

  -- The standard input. A program above the largest size fails an assert, behind what was written.
  unfoldable pub do_stdin : List Effect × Bool
  unfolding do_parse do_binary
  do_stdin =
      let s = lib.stdin_contents in
      let (opcodes, effects) =
        if args.binary
        then (s, do_binary (codes "<stdin>") s)
        else do_parse (codes "<stdin>") s (codes "<stdout>") wrote_stdout in
      if leb (length opcodes) lib.max_code_size
      then (effects ++ if_compile opcodes (codes "out.asm"), true)
      else (effects, false)

  unfoldable pub do_file : Bytes → List Effect
  unfolding do_parse do_binary
  do_file filename =
      if args.binary
      then do_binary filename (lib.contents filename)
      else (let outfile : Bytes = filename ++ codes ".evm" in
          let (opcodes, effects) =
            do_parse filename (lib.contents filename) outfile (wrote_file outfile) in
          effects ++ if_compile opcodes (filename ++ codes ".asm"))

  unfoldable pub do_files : List Bytes → List Effect
  unfolding do_file
  do_files [] = []
  do_files (filename ∷ filenames) = do_file filename ++ do_files filenames

  -- The effects, and the return code, or none where the assert failed.
  unfoldable pub tool_main : List Effect × Option ℕ
  unfolding do_stdin do_files
  tool_main =
      if args.from_stdin
      then (if do_stdin.1
          then (do_stdin.0 ++ do_files args.filenames, some 0)
          else (do_stdin.0, none))
      else (do_files args.filenames, some 0)
