-- ===== src/Cli/Actions.antt =====
-- The commands that take an argument: do_version ... do_get_receipt of cmd/monad_cli.cpp.
use monad_fork.Prelude.{
  ◌+◌, ◌-◌, ◌/◌, ◌%◌, ltb, true, false, ◌&&◌, none, some, [], ◌∷◌, ◌++◌, ◌==◌, if◌then◌else◌, ℕ,
  Bool, not, Option, List, u64_max, length,
}
use monad_fork.Vm.Mce.{shown}
use monad_fork.Text.{
  Errc, invalid_argument, result_out_of_range, codes, same_text, is_digit, no_error, from_chars,
}
use monad_fork.Cli.NodeStats.{Visit}
use monad_fork.Cli.Machine.{
  NodeCursor, is_empty, TrieDb, Machine, Message, help, not_a_number, not_a_block_id, no_such_table,
  not_hexadecimal, base_ten, unsigned_integer, not_found, undecodable, shown_code, shown_account,
  shown_receipt, shown_storage, Reply, set_version, set_proposal_or_finalized, set_table, lookup,
}
use monad_fork.Node.Outcome.{Outcome, ok, abort, and_then}
use monad_fork.Node.Block.{Bytes}

-- The decoders and hashes of the libraries. The decoded values are those that are printed.
pub record Decoders : Type 0 where
  -- evmc::literals::parse<bytes32_t>; none: the text is not accepted, and the process ends
  pub parse_bytes32 : Bytes → Option ℕ
  pub from_hex : Bytes → Option Bytes
  pub keccak256 : Bytes → Bytes
  -- std::format("{:064x}", slot_id)
  pub format_slot : ℕ → Bytes
  -- rlp::encode_unsigned
  pub encode_unsigned : ℕ → Bytes
  -- NibblesView of bytes: two nibbles a byte
  pub nibbles : Bytes → Bytes
  pub decode_account : Bytes → Option Bytes
  pub decode_storage : Bytes → Option Bytes
  pub decode_receipt : Bytes → Option Bytes
  -- The calls that Db::traverse makes at this version, and whether it comes to its end.
  pub visits_of : NodeCursor → ℕ → List Visit
  pub traverses : NodeCursor → ℕ → Bool
  -- "{}" of a count, and "{:.2f}" of the percentage of a count in a total
  pub format_count : ℕ → Bytes
  pub format_percentage : ℕ → ℕ → Bytes

unfoldable pub all_digits : Bytes → Bool
all_digits [] = true
all_digits (c ∷ s) = is_digit c && all_digits s

unfoldable pub is_numeric : Bytes → Bool
unfolding all_digits
is_numeric str = not (is_empty str) && all_digits str

abbrev pub hex_digit : ℕ → ℕ
hex_digit d = if ltb d 10 then b'0' + d else b'a' + (d - 10)

-- "{:02x}" of each byte, joined
unfoldable pub hex_text : Bytes → Bytes
hex_text [] = []
hex_text (b ∷ code) = hex_digit (b / 16) ∷ hex_digit (b % 16) ∷ hex_text code

unfoldable pub code_text : Bytes → Bytes
unfolding hex_text
code_text [] = codes "EMPTY"
code_text (b ∷ code) = codes "0x" ++ hex_text (b ∷ code)

-- What a step prints before the next one runs; an empty continuation is an early return.
abbrev pub Printed : Type 0
Printed = Outcome (List Message)

abbrev pub print_then : List Message → Printed → Printed
print_then lines r = and_then r λ more. ok (lines ++ more)

-- An argument that is no hexadecimal text is reported.
unfoldable pub with_hex : Option Bytes → (Bytes → Printed) → Printed
with_hex none f = ok (not_hexadecimal ∷ [])
with_hex (some hex) f = f hex

module _ (db : TrieDb) (dec : Decoders) where
  unfoldable pub with_number : Errc → ℕ → Machine → Reply
  unfolding set_version
  with_number no_error version m = set_version db version m
  with_number invalid_argument version m = ok (m, not_a_number ∷ [])
  with_number result_out_of_range version m = ok (m, not_a_number ∷ [])

  -- std::from_chars takes the digits in front, so a rest is ignored.
  unfoldable pub do_version : Bytes → Machine → Reply
  unfolding from_chars with_number
  do_version version m =
      with_number (from_chars u64_max version).ec (from_chars u64_max version).value m

  unfoldable pub with_block_id : Option ℕ → Machine → Reply
  unfolding set_proposal_or_finalized
  with_block_id none m = abort
  with_block_id (some block_id) m =
      if block_id == 0 then ok (m, not_a_block_id ∷ []) else set_proposal_or_finalized db block_id m

  unfoldable pub do_proposal : Bytes → Machine → Reply
  unfolding with_block_id
  do_proposal input m = with_block_id (dec.parse_bytes32 input) m

  unfoldable pub table_nibble : Bytes → ℕ
  unfolding same_text
  table_nibble name =
      if same_text name (codes "state")
      then db.state_nibble
      else if same_text name (codes "receipt")
      then db.receipt_nibble
      else if same_text name (codes "code")
      then db.code_nibble
      else db.invalid_nibble

  unfoldable pub do_table : Bytes → Machine → Reply
  unfolding table_nibble set_table
  do_table name m =
      if table_nibble name == db.invalid_nibble
      then ok (m, no_such_table ∷ help ∷ [])
      else set_table db (table_nibble name) m

  -- to_triedb_key
  unfoldable pub to_triedb_key : Bytes → Bool → Bytes
  to_triedb_key input already_hashed = if already_hashed then input else dec.keccak256 input

  -- `node->value()`
  unfoldable pub with_value : Option Bytes → (Bytes → Printed) → Printed
  with_value none found = abort
  with_value (some value) found = found value

  -- A lookup, what it printed, and the value found.
  unfoldable pub query : Bytes → Machine → (Bytes → Printed) → Printed
  unfolding lookup with_value
  query key m found = and_then (lookup db key m) λ (r, lines).
      print_then lines
        (elim r [ none ↦ ok (not_found ∷ []) | some cursor ↦ with_value cursor.value found ])

  -- print_code
  unfoldable pub show_code : Bytes → Printed
  unfolding code_text
  show_code value = ok (shown_code (code_text value) ∷ [])

  unfoldable pub do_get_code : Bytes → Machine → Printed
  unfolding query with_hex show_code
  do_get_code code_hash m =
      with_hex (dec.from_hex code_hash) λ hex. query (dec.nibbles hex) m show_code

  -- A slot in decimal is written as 64 hexadecimal digits and hashed; another is taken as hashed.
  unfoldable pub storage_slot : Bytes → Option Bytes
  unfolding is_numeric from_chars
  storage_slot storage =
      if is_numeric storage
      then dec.from_hex (dec.format_slot (from_chars u64_max storage).value)
      else dec.from_hex storage

  unfoldable pub show_storage : Bytes → Printed
  show_storage value = elim (dec.decode_storage value) [
    | none ↦ ok (undecodable ∷ [])
    | some shown ↦ ok (shown_storage shown ∷ [])
  ]

  unfoldable pub do_get_storage : Bytes → Bytes → Machine → Printed
  unfolding storage_slot show_storage query with_hex to_triedb_key
  do_get_storage account_key storage m =
      if is_empty storage
      then ok []
      else with_hex (storage_slot storage) (λ slot.
        query
          (dec.nibbles account_key ++ dec.nibbles (to_triedb_key slot (not (is_numeric storage)))) m
          show_storage)

  unfoldable pub show_account : Bytes → Bytes → Machine → Bytes → Printed
  unfolding do_get_storage
  show_account account_key storage m value = elim (dec.decode_account value) [
    | none ↦ ok (undecodable ∷ [])
    | some shown ↦ print_then (shown_account shown ∷ []) (do_get_storage account_key storage m)
  ]

  unfoldable pub do_get_account : Bytes → Bytes → Machine → Printed
  unfolding show_account query with_hex to_triedb_key
  do_get_account account storage m = with_hex (dec.from_hex account) λ hex.
      let account_key = to_triedb_key hex (length hex == 32) in
      query (dec.nibbles account_key) m (show_account account_key storage m)

  unfoldable pub starts_with_0x : Bytes → Bool
  starts_with_0x (a ∷ b ∷ rest) = a == b'0' && b == b'x'
  starts_with_0x _ = false

  -- A receipt that does not decode is reported, and then its missing value is taken: the exception
  -- ends the process.
  unfoldable pub show_receipt : Bytes → Printed
  show_receipt value = elim (dec.decode_receipt value) [
    | none ↦ abort
    | some shown ↦ ok (shown_receipt shown ∷ [])
  ]

  unfoldable pub do_get_receipt : Bytes → Machine → Printed
  unfolding query starts_with_0x from_chars show_receipt
  do_get_receipt receipt m =
      if starts_with_0x receipt then ok (base_ten ∷ []) else elim (from_chars u64_max receipt).ec [
        | no_error ↦
            query (dec.nibbles (dec.encode_unsigned (from_chars u64_max receipt).value)) m
              show_receipt
        | _ ↦ ok (unsigned_integer ∷ [])
      ]
