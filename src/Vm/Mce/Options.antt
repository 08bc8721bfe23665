-- ===== src/Vm/Mce/Options.antt =====
-- parse_args of cmd/vm/mce/mce.cpp.
use monad_fork.Prelude.{true, ℕ, false, none, some, [], ◌∷◌, if◌then◌else◌, Option, List}
use monad_fork.Text.Cli11.{
  Given, option_is, flag_is, Words, sets, fails, Cli11, CliError, other_error, number_is,
}
use monad_fork.Text.{codes, same_text}
use monad_fork.Vm.Mce.{Arguments}
use monad_fork.Vm.Stopwatch.{Timeunit, nano, timeunit_of_short_string}
use monad_fork.Node.Block.{Bytes}

-- The code of "filename: no input file"
abbrev pub no_input_file : ℕ
no_input_file = 105

abbrev pub options : List Bytes
options = codes "filename" ∷ codes "--rev" ∷ codes "--dump-asm" ∷ codes "-u" ∷ []

abbrev pub flags : List Bytes
flags = codes "-d" ∷ codes "-p" ∷ codes "-c" ∷ codes "-e" ∷ codes "-r" ∷ codes "-w" ∷ []

abbrev pub default_arguments : Arguments
default_arguments = record {
  filename = [];
  revision = codes "latest";
  timeunit_s = codes "ns";
  timeunit = nano;
  instrument_decode = false;
  instrument_parse = false;
  instrument_compile = false;
  instrument_execute = false;
  asm_log_file = none;
  wall_clock_time = false;
  report_result = false;
}

unfoldable pub assign : Given → Arguments → Arguments
unfolding same_text
assign (option_is name value) args =
    if same_text name (codes "filename")
    then record args { filename = value }
    else if same_text name (codes "--rev")
    then record args { revision = value }
    else if same_text name (codes "--dump-asm")
    then record args { asm_log_file = some value }
    else if same_text name (codes "-u")
    then record args { timeunit_s = value }
    else args
assign (number_is name n) args = args
assign (flag_is name on) args =
    if same_text name (codes "-d")
    then record args { instrument_decode = on }
    else if same_text name (codes "-p")
    then record args { instrument_parse = on }
    else if same_text name (codes "-c")
    then record args { instrument_compile = on }
    else if same_text name (codes "-e")
    then record args { instrument_execute = on }
    else if same_text name (codes "-r")
    then record args { report_result = on }
    else if same_text name (codes "-w")
    then record args { wall_clock_time = on }
    else args

unfoldable pub assign_all : List Given → Arguments → Arguments
unfolding assign
assign_all [] args = args
assign_all (given ∷ more) args = assign_all more (assign given args)

-- The arguments, an error of CLI11, or an exception that nothing catches.
pub data ParsedArguments : Type 0 where
  accepted : Arguments → ParsedArguments
  parse_error : CliError → ParsedArguments
  uncaught : ParsedArguments

-- The unit is read before the file's name is looked at.
unfoldable pub with_timeunit : Arguments → Option Timeunit → ParsedArguments
with_timeunit args none = uncaught
with_timeunit args (some u) = elim args.filename [
  | [] ↦ parse_error (other_error no_input_file)
  | _ ∷ _ ↦ accepted (record args { timeunit = u })
]

unfoldable pub after_parse : Words → ParsedArguments
unfolding assign_all with_timeunit timeunit_of_short_string
after_parse (fails e) = parse_error e
after_parse (sets given) =
    let args = assign_all given default_arguments in
    with_timeunit args (timeunit_of_short_string args.timeunit_s)

unfoldable pub parse_args : Cli11 → List Bytes → ParsedArguments
unfolding after_parse
parse_args cli argv = after_parse (cli.parse options flags (λ name value. true) argv)
