-- ===== src/Text/Cli11.antt =====
-- The library CLI11, which parses the command lines: it is given the names that are declared, the
-- check of a value by its option's name, and the words of the command line, and gives what it sets,
-- in order, or an error.
use monad_fork.Prelude.{Bool, List, ℕ}
use monad_fork.Node.Block.{Bytes}

pub data Given : Type 0 where
  option_is : Bytes → Bytes → Given
  number_is : Bytes → ℕ → Given
  flag_is : Bytes → Bool → Given

-- CallForHelp, RequiredError, and any other ParseError with its code
pub data CliError : Type 0 where
  call_for_help required_error : CliError
  other_error : ℕ → CliError

pub data Words : Type 0 where
  sets : List Given → Words
  fails : CliError → Words

pub record Cli11 : Type 0 where
  -- of the options, the flags, the checks and the words
  pub parse : List Bytes → List Bytes → (Bytes → Bytes → Bool) → List Bytes → Words
  -- App::exit
  pub exit : CliError → ℕ
  -- CLI::ExistingFile
  pub existing_file : Bytes → Bool
