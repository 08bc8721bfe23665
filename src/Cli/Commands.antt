-- ===== src/Cli/Commands.antt =====
-- interactive_impl of cmd/monad_cli.cpp: tokens, the chain of commands, and the loop.
pub mod Laws
pub mod Lines
use monad_fork.Wal.{next}
use monad_fork.Prelude.{◌||◌, [], ◌∷◌, ◌++◌, ◌==◌, if◌then◌else◌, List}
use monad_fork.Text.{codes, same_text, split}
use monad_fork.Cli.Machine.{
  back, TrieDb, Machine, Message, help, usage, need_table, no_key, took, invalid_command, Reply,
  list_finalized_and_proposals, set_proposal_or_finalized,
}
use monad_fork.Node.Outcome.{Outcome, ok, and_then}
use monad_fork.Node.Block.{Bytes}
use monad_fork.Cli.Report.{do_node_stats}
use monad_fork.Cli.Actions.{
  Decoders, Printed, print_then, do_version, do_proposal, do_table, do_get_code, do_get_account,
  do_get_receipt,
}

abbrev pub keep_nonempty : List Bytes → List Bytes
keep_nonempty [] = []
keep_nonempty ([] ∷ pieces) = keep_nonempty pieces
keep_nonempty ((c ∷ piece) ∷ pieces) = (c ∷ piece) ∷ keep_nonempty pieces

unfoldable pub tokenize : Bytes → List Bytes
unfolding split
tokenize input = keep_nonempty (split b' ' input)

-- After a line: the loop goes on, or is left.
pub data Next : Type 0 where
  go_on leave : Next

abbrev pub Step : Type 0
Step = Outcome (Machine × Next × List Message)

-- `fmt::println("Took {}", ...)` ends a line that is not left early.
abbrev pub timed : Reply → Step
timed r = and_then r λ (m, lines). ok (m, go_on, lines ++ took ∷ [])

abbrev pub reads : Machine → Printed → Reply
reads m r = and_then r λ lines. ok (m, lines)

-- A command with exactly one argument.
unfoldable pub with_one : (Bytes → Reply) → List Bytes → Machine → Reply
with_one f [] m = ok (m, usage ∷ [])
with_one f (arg ∷ []) m = f arg
with_one f (arg ∷ extra ∷ more) m = ok (m, usage ∷ [])

module _ (db : TrieDb) (dec : Decoders) where
  -- The reader of the chosen table.
  unfoldable pub by_table : Bytes → Bytes → Machine → Reply
  unfolding do_get_account do_get_code do_get_receipt
  by_table key storage m =
      if m.curr_table_id == db.state_nibble
      then reads m (do_get_account db dec key storage m)
      else if m.curr_table_id == db.code_nibble
      then reads m (do_get_code db dec key m)
      else if m.curr_table_id == db.receipt_nibble
      then reads m (do_get_receipt db dec key m)
      else ok (m, [])

  -- The arguments of `get`: a key, and for an account perhaps a slot.
  unfoldable pub read_args : List Bytes → Machine → Reply
  unfolding by_table
  read_args [] m = ok (m, no_key ∷ [])
  read_args (key ∷ []) m = by_table key [] m
  read_args (key ∷ storage ∷ []) m = by_table key storage m
  read_args (key ∷ storage ∷ extra ∷ more) m = ok (m, no_key ∷ [])

  unfoldable pub do_get : List Bytes → Machine → Reply
  unfolding read_args
  do_get args m =
      if m.curr_table_id == db.invalid_nibble then ok (m, need_table ∷ []) else read_args args m

  -- `node_stats` is left early, without the time, where no table is chosen.
  unfoldable pub node_stats_step : Machine → Step
  unfolding do_node_stats
  node_stats_step m =
      if m.curr_table_id == db.invalid_nibble
      then ok (m, go_on, need_table ∷ [])
      else timed (ok (m, do_node_stats dec db m))

  unfoldable pub run_command : Bytes → List Bytes → Machine → Step
  unfolding same_text with_one node_stats_step do_version do_proposal do_table do_get
      list_finalized_and_proposals set_proposal_or_finalized back
  run_command name args m =
      if same_text name (codes "help")
      then timed (ok (m, help ∷ []))
      else if same_text name (codes "version")
      then timed (with_one (λ arg. do_version db dec arg m) args m)
      else if same_text name (codes "list")
      then timed (ok (m, (list_finalized_and_proposals db m.curr_version).1))
      else if same_text name (codes "proposal")
      then timed (with_one (λ arg. do_proposal db dec arg m) args m)
      else if same_text name (codes "finalized")
      then timed (set_proposal_or_finalized db 0 m)
      else if same_text name (codes "table")
      then timed (with_one (λ arg. do_table db dec arg m) args m)
      else if same_text name (codes "get")
      then timed (do_get args m)
      else if same_text name (codes "node_stats")
      then node_stats_step m
      else if same_text name (codes "back")
      then timed (ok (back db m))
      else if same_text name (codes "quit") || same_text name (codes "exit")
      then ok (m, leave, [])
      else timed (ok (m, invalid_command ∷ []))

  unfoldable pub handle_tokens : List Bytes → Machine → Step
  unfolding run_command
  handle_tokens [] m = ok (m, go_on, [])
  handle_tokens (name ∷ args) m = run_command name args m

  unfoldable pub handle_line : Bytes → Machine → Step
  unfolding tokenize handle_tokens
  handle_line line m = handle_tokens (tokenize line) m

  -- The loop over the lines of the input, until one leaves it or they end.
  unfoldable pub interactive : List Bytes → Machine → Outcome (List Message)
  unfolding handle_line
  interactive [] m = ok []
  interactive (line ∷ lines) m = and_then (handle_line line m) λ (m', next, printed). elim next [
    | leave ↦ ok printed
    | go_on ↦ print_then printed (interactive lines m')
  ]
