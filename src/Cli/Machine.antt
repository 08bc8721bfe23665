-- ===== src/Cli/Machine.antt =====
-- DbStateMachine: a cursor over versions, sections and tables.
pub mod Invariant
use monad_fork.Text.{codes}
use monad_fork.Prelude.{
  true, false, ◌&&◌, ◌||◌, none, some, [], ◌∷◌, ◌++◌, ◌==◌, ◌!=◌, if◌then◌else◌, ℕ, Bool, not,
  Option, List, ltb,
}
use monad_fork.Node.Outcome.{Outcome, ok, and_then, assert_that}
use monad_fork.Node.Block.{Bytes}

pub data DbState : Type 0 where
  unset version_number proposal_or_finalize table invalid : DbState

-- mpt::Db read-only, by what the machine asks of it. Of the node that `find` reaches the reader uses
-- data() and value().
pub record NodeCursor : Type 0 where
  pub contents : Bytes
  -- none: the node has no value, and the call of value() ends the process
  pub value : Option Bytes

pub record TrieDb : Type 0 where
  pub earliest_version : ℕ
  pub latest_version : ℕ
  pub find : Bytes → ℕ → Option NodeCursor
  pub proposal_block_ids : ℕ → List ℕ
  pub proposal_prefix : ℕ → Bytes
  pub finalized_nibbles : Bytes
  pub invalid_block_num : ℕ
  pub invalid_nibble : ℕ
  pub state_nibble : ℕ
  pub code_nibble : ℕ
  pub receipt_nibble : ℕ
  pub null_root : ℕ
  pub to_bytes : Bytes → ℕ

pub record Machine : Type 0 where
  pub curr_version : ℕ
  pub curr_block_id : ℕ
  pub curr_section_prefix : Bytes
  pub curr_table_id : ℕ
  pub state : DbState

-- What is printed, by the line and the values in it.
pub data Message : Type 0 where
  already_at no_version_sections version_set no_proposal no_finalized : ℕ → Message
  invalid_version : ℕ → ℕ → ℕ → Message
  invalid_list choose_section not_at_version not_at_section choose_table version_unset : Message
  sections : ℕ → Bool → List ℕ → Message
  at_proposal : ℕ → ℕ → Message
  at_finalized at_version : ℕ → Message
  setting_table : ℕ → Bytes → Message
  merkle_root : ℕ → Message
  no_table_root : Bytes → Message
  invalid_table_id not_at_table help : Message
  looking_up : Bytes → ℕ → ℕ → Message
  not_a_number not_a_block_id no_such_table not_hexadecimal base_ten unsigned_integer : Message
  not_found undecodable : Message
  shown_code shown_account shown_receipt : Bytes → Message
  shown_storage : Bytes → Message
  usage need_table no_key took invalid_command : Message
  finished_early cannot_traverse : ℕ → Message
  statistics : ℕ → ℕ → ℕ → Message
  path_table : Bytes → Message

abbrev pub Reply : Type 0
Reply = Outcome (Machine × List Message)

abbrev pub has_value : Option NodeCursor → Bool
has_value none = false
has_value (some _) = true

abbrev pub is_empty : {A : Type 0} → List A → Bool
is_empty [] = true
is_empty (_ ∷ _) = false

module _ (db : TrieDb) where
  unfoldable pub initial : Machine
  initial = record {
    curr_version = db.invalid_block_num;
    curr_block_id = 0;
    curr_section_prefix = [];
    curr_table_id = db.invalid_nibble;
    state = unset;
  }

  unfoldable pub list_finalized_and_proposals : ℕ → Bool × List Message
  list_finalized_and_proposals version =
      if version == db.invalid_block_num
      then (false, invalid_list ∷ [])
      else if not (has_value (db.find db.finalized_nibbles version))
          && is_empty (db.proposal_block_ids version)
      then (false, [])
      else (
        true,
        sections version (has_value (db.find db.finalized_nibbles version))
              (db.proposal_block_ids version)
            ∷ [],
      )

  -- The checks of `state`, then two asserts, then the range.
  unfoldable pub set_version : ℕ → Machine → Reply
  unfolding list_finalized_and_proposals
  set_version version m = and_then (assert_that (version != db.invalid_block_num)) λ _.
      elim m.state [
        | unset ↦ and_then (assert_that (m.curr_version == db.invalid_block_num)) λ _.
            and_then (assert_that (is_empty m.curr_section_prefix)) λ _.
              if ltb version db.earliest_version || ltb db.latest_version version
              then ok (m, invalid_version version db.earliest_version db.latest_version ∷ [])
              else (let (found, lines) = list_finalized_and_proposals version in
                  ok (
                    record m { curr_version = version; state = version_number },
                    version_set version
                        ∷ (lines
                            ++ (if found then choose_section else no_version_sections version)
                              ∷ []),
                  ))
        | _ ↦ ok (m, already_at m.curr_version ∷ [])
      ]

  -- The prefix of the section that a block id names: 0 is the finalized one.
  unfoldable pub section_prefix : ℕ → Bytes
  section_prefix block_id =
      if block_id != 0 then db.proposal_prefix block_id else db.finalized_nibbles

  unfoldable pub set_proposal_or_finalized : ℕ → Machine → Reply
  unfolding section_prefix
  set_proposal_or_finalized block_id m = elim m.state [
    | version_number ↦ and_then (assert_that (is_empty m.curr_section_prefix)) λ _.
        if has_value (db.find (section_prefix block_id) m.curr_version)
        then ok (
          record m {
            curr_block_id = block_id;
            curr_section_prefix = section_prefix block_id;
            state = proposal_or_finalize;
          },
          (if block_id != 0
                then at_proposal block_id m.curr_version
                else at_finalized m.curr_version)
              ∷ [],
        )
        else ok (
          record m { curr_block_id = block_id },
          (if block_id != 0 then no_proposal block_id else no_finalized m.curr_version) ∷ [],
        )
    | _ ↦ ok (m, not_at_version ∷ [])
  ]

  unfoldable pub table_as_string : ℕ → Bytes
  table_as_string table_id =
      if table_id == db.state_nibble
      then codes "state"
      else if table_id == db.code_nibble
      then codes "code"
      else if table_id == db.receipt_nibble
      then codes "receipt"
      else codes "invalid"

  -- concat(curr_section_prefix, table_id)
  unfoldable pub table_key : Machine → ℕ → Bytes
  table_key m table_id = m.curr_section_prefix ++ table_id ∷ []

  unfoldable pub root_lines : ℕ → NodeCursor → List Message
  root_lines table_id cursor =
      if table_id != db.code_nibble
      then merkle_root
          (if is_empty cursor.contents then db.null_root else db.to_bytes cursor.contents)
        ∷ choose_table
        ∷ []
      else choose_table ∷ []

  unfoldable pub set_table : ℕ → Machine → Reply
  unfolding table_key root_lines table_as_string
  set_table table_id m = elim m.state [
    | proposal_or_finalize ↦ and_then (assert_that (not (is_empty m.curr_section_prefix))) λ _.
        if table_id == db.state_nibble
          || table_id == db.code_nibble
          || table_id == db.receipt_nibble
        then elim (db.find (table_key m table_id) m.curr_version) [
          | some cursor ↦ ok (
            record m { state = table; curr_table_id = table_id },
            setting_table m.curr_version (table_as_string table_id) ∷ root_lines table_id cursor,
          )
          | none ↦ ok (
            m,
            setting_table m.curr_version (table_as_string table_id)
                ∷ no_table_root (table_as_string table_id)
                ∷ [],
          )
        ]
        else ok (m, invalid_table_id ∷ [])
    | _ ↦ ok (m, not_at_section ∷ [])
  ]

  -- A wrong state is only reported; the two asserts follow all the same.
  unfoldable pub lookup : Bytes → Machine → Outcome (Option NodeCursor × List Message)
  lookup key m = and_then (assert_that (not (is_empty m.curr_section_prefix))) λ _.
      and_then (assert_that (m.curr_table_id != db.invalid_nibble)) λ _. ok (
        db.find (m.curr_section_prefix ++ m.curr_table_id ∷ key) m.curr_version,
        elim m.state [
          | table ↦ looking_up key m.curr_version m.curr_table_id ∷ []
          | _ ↦ not_at_table ∷ looking_up key m.curr_version m.curr_table_id ∷ []
        ],
      )

  unfoldable pub back : Machine → Machine × List Message
  back m = elim m.state [
    | table ↦ (
      record m { state = proposal_or_finalize; curr_table_id = db.invalid_nibble },
      (if m.curr_block_id != 0
            then at_proposal m.curr_block_id m.curr_version
            else at_finalized m.curr_version)
          ∷ [],
    )
    | proposal_or_finalize ↦ (
      record m {
        state = version_number;
        curr_section_prefix = [];
        curr_block_id = 0;
        curr_table_id = db.invalid_nibble;
      },
      at_version m.curr_version ∷ [],
    )
    | version_number ↦ (
      record m {
        curr_version = db.invalid_block_num;
        state = unset;
        curr_table_id = db.invalid_nibble;
      },
      version_unset ∷ [],
    )
    | _ ↦ (record m { curr_version = db.invalid_block_num; curr_table_id = db.invalid_nibble }, [])
  ]
