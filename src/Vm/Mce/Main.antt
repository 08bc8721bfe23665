-- ===== src/Vm/Mce/Main.antt =====
-- main of cmd/vm/mce/mce.cpp: the choice of the revision by its name.
pub mod Laws
use monad_fork.Prelude.{◌-◌, ◌&&◌, none, some, [], ◌∷◌, if◌then◌else◌, Option, List, leb, ℕ}
use monad_fork.Text.{codes, same_text}
use monad_fork.Vm.Mce.{Probe, Arguments, Engine}
use monad_fork.Vm.Mce.Stages.{mce_main, return_code}
use monad_fork.Vm.Mce.Options.{accepted, parse_error, uncaught, ParsedArguments, parse_args}
use monad_fork.Text.Cli11.{Cli11}
use monad_fork.Node.Block.{Bytes}

-- std::toupper on an ASCII character
abbrev pub toupper : ℕ → ℕ
toupper c = if leb b'a' c && leb c b'z' then c - 32 else c

unfoldable pub uppercase : Bytes → Bytes
uppercase [] = []
uppercase (c ∷ s) = toupper c ∷ uppercase s

pub data Revision : Type 0 where
  frontier homestead tangerine_whistle spurious_dragon byzantium constantinople petersburg :
      Revision
  istanbul berlin london paris shanghai cancun prague osaka latest : Revision

-- The names in the order of the comparisons.
abbrev pub names : List (Bytes × Revision)
names =
    (codes "FRONTIER", frontier)
    ∷ (codes "HOMESTEAD", homestead)
    ∷ (codes "TANGERINE_WHISTLE", tangerine_whistle)
    ∷ (codes "SPURIOUS_DRAGON", spurious_dragon)
    ∷ (codes "BYZANTIUM", byzantium)
    ∷ (codes "CONSTANTINOPLE", constantinople)
    ∷ (codes "PETERSBURG", petersburg)
    ∷ (codes "ISTANBUL", istanbul)
    ∷ (codes "BERLIN", berlin)
    ∷ (codes "LONDON", london)
    ∷ (codes "PARIS", paris)
    ∷ (codes "SHANGHAI", shanghai)
    ∷ (codes "CANCUN", cancun)
    ∷ (codes "PRAGUE", prague)
    ∷ (codes "OSAKA", osaka)
    ∷ (codes "LATEST", latest)
    ∷ []

unfoldable pub find_name : List (Bytes × Revision) → Bytes → Option Revision
unfolding same_text
find_name [] s = none
find_name ((name, rev) ∷ rest) s =
    let others = find_name rest s in if same_text s name then some rev else others

unfoldable pub revision_of : Bytes → Option Revision
unfolding uppercase find_name
revision_of s = find_name names (uppercase s)

-- An unsupported revision is reported; no engine runs.
unfoldable pub run_revision :
    {Ir Code : Type 0}
    → (Revision → Engine Ir Code)
    → Arguments
    → Option Revision
    → List Probe × Option ℕ
unfolding mce_main return_code
run_revision engines args none = ([], some 1)
run_revision engines args (some rev) =
    let (probes, end_) = mce_main (engines rev) args in (probes, return_code end_)

unfoldable pub after_args :
    {Ir Code : Type 0}
    → (Revision → Engine Ir Code)
    → Cli11
    → ParsedArguments
    → List Probe × Option ℕ
unfolding run_revision revision_of
after_args engines cli (accepted args) = run_revision engines args (revision_of args.revision)
after_args engines cli (parse_error e) = ([], some (cli.exit e))
after_args engines cli uncaught = ([], none)

-- The exit code, or none where an exception ends the program.
unfoldable pub main :
    {Ir Code : Type 0} → (Revision → Engine Ir Code) → Cli11 → List Bytes → List Probe × Option ℕ
unfolding after_args parse_args
main engines cli argv = after_args engines cli (parse_args cli argv)
