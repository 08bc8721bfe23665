-- ===== src/Vm/ParserTool/Options.antt =====
-- parse_args and main of cmd/vm/parser/parser_tool.cpp.
use monad_fork.Prelude.{false, some, [], ◌∷◌, ◌++◌, if◌then◌else◌, ℕ, Option, List}
use monad_fork.Text.{codes, same_text}
use monad_fork.Vm.ParserTool.{ToolArguments, Effect, Assembler, tool_main}
use monad_fork.Node.Block.{Bytes}
use monad_fork.Text.Cli11.{Given, option_is, flag_is, Words, sets, fails, Cli11, number_is}

abbrev pub options : List Bytes
options = codes "filenames" ∷ []

-- "--validate" is an option with a truth value.
abbrev pub flags : List Bytes
flags =
    codes "-b,--binary"
    ∷ codes "-c,--compile"
    ∷ codes "--validate"
    ∷ codes "-v,--verbose"
    ∷ codes "-s,--stdin"
    ∷ []

abbrev pub default_arguments : ToolArguments
default_arguments = record {
  verbose = false;
  binary = false;
  from_stdin = false;
  compile = false;
  validate = false;
  filenames = [];
}

-- Each file is a value of "filenames".
unfoldable pub assign : Given → ToolArguments → ToolArguments
unfolding same_text
assign (option_is name value) args =
    if same_text name (codes "filenames")
    then record args { filenames = args.filenames ++ value ∷ [] }
    else args
assign (number_is name n) args = args
assign (flag_is name on) args =
    if same_text name (codes "-b,--binary")
    then record args { binary = on }
    else if same_text name (codes "-c,--compile")
    then record args { compile = on }
    else if same_text name (codes "--validate")
    then record args { validate = on }
    else if same_text name (codes "-v,--verbose")
    then record args { verbose = on }
    else if same_text name (codes "-s,--stdin")
    then record args { from_stdin = on }
    else args

unfoldable pub assign_all : List Given → ToolArguments → ToolArguments
unfolding assign
assign_all [] args = args
assign_all (given ∷ more) args = assign_all more (assign given args)

unfoldable pub run_parsed : Assembler → Cli11 → Words → List Effect × Option ℕ
unfolding assign_all tool_main
run_parsed lib cli (fails e) = ([], some (cli.exit e))
run_parsed lib cli (sets given) = tool_main lib (assign_all given default_arguments)

unfoldable pub main : Assembler → Cli11 → List Bytes → List Effect × Option ℕ
unfolding run_parsed
main lib cli argv =
    run_parsed lib cli (cli.parse options flags (λ name value. cli.existing_file value) argv)
