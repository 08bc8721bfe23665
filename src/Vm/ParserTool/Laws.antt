-- ===== src/Vm/ParserTool/Laws.antt =====
-- The files that the tool writes and compiles.
use monad_fork.Prelude.{◌≡◌, refl, ◌∙◌, some, [], ◌∷◌, ◌++◌, arith, if◌then◌else◌, ap, List}
use monad_fork.Text.{codes}
use monad_fork.Vm.ParserTool.{
  ToolArguments, Effect, logged_parsing, logged_writing, logged_printing, wrote_file, wrote_stdout,
  printed, compiled_to, Assembler, do_stdin, do_file, do_files, tool_main,
}
use monad_fork.Node.Block.{Bytes}

-- (file, contents) in the order of writing
unfoldable pub written : List Effect → List (Bytes × Bytes)
written [] = []
written (wrote_file name bytes ∷ effects) = (name, bytes) ∷ written effects
written (_ ∷ effects) = written effects

written-append : (xs ys : List Effect) → written (xs ++ ys) ≡ written xs ++ written ys
unfolding written
written-append [] ys = refl
written-append (wrote_file name bytes ∷ xs) ys = ap (◌∷◌ (name, bytes)) (written-append xs ys)
written-append (logged_parsing b ∷ xs) ys = written-append xs ys
written-append (logged_writing b ∷ xs) ys = written-append xs ys
written-append (logged_printing b ∷ xs) ys = written-append xs ys
written-append (wrote_stdout b ∷ xs) ys = written-append xs ys
written-append (printed b ∷ xs) ys = written-append xs ys
written-append (compiled_to b c ∷ xs) ys = written-append xs ys

module _ (lib : Assembler) (args : ToolArguments) where
  -- The files that text is parsed into, each with its bytecode.
  abbrev pub outputs : List Bytes → List (Bytes × Bytes)
  outputs [] = []
  outputs (name ∷ names) =
      (name ++ codes ".evm", lib.parse_opcodes args.validate (lib.contents name)) ∷ outputs names

  do_file-written :
      (name : Bytes)
      → written (do_file lib args name) ≡ (if args.binary then [] else outputs (name ∷ []))
  unfolding do_file written
  do_file-written name = ground arith

  do_files-written :
      (names : List Bytes)
      → written (do_files lib args names) ≡ (if args.binary then [] else outputs names)
  unfolding do_files written
  do_files-written [] = ground arith
  do_files-written (name ∷ names) =
      written-append (do_file lib args name) (do_files lib args names)
      ∙ ground (arith, do_file-written name, do_files-written names)

  do_stdin-written : written (do_stdin lib args).0 ≡ []
  unfolding do_stdin written
  do_stdin-written = ground arith

  -- A run that returns has written, for each file in order, its bytecode beside it, and nothing else;
  -- with `--binary` it writes no file.
  pub tool_main-written :
      (tool_main lib args).1 ≡ some 0
      → written (tool_main lib args).0 ≡ (if args.binary then [] else outputs args.filenames)
  unfolding tool_main
  tool_main-written e = ground (
    arith,
    written-append (do_stdin lib args).0 (do_files lib args args.filenames),
    do_stdin-written,
    do_files-written args.filenames,
  )
