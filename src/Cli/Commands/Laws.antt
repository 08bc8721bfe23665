-- ===== src/Cli/Commands/Laws.antt =====
-- The reads of the chosen table: none ends the process when the stored receipts decode
-- and the nodes found have values.
use monad_fork.Prelude.{
  Bool, false, if◌then◌else◌, sym, subst, not, length, ◌==◌, Bool-cases, some, Option, ◌≡◌, refl,
  ◌≢◌, inl, inr, true, none, [], ◌∷◌, ◌++◌, arith, List, Option-cases, u64_max,
}
use monad_fork.Cli.Machine.{is_empty, NodeCursor, Message, TrieDb, Machine}
use monad_fork.Cli.Actions.{
  is_numeric, to_triedb_key, with_value, storage_slot, print_then, with_hex, show_code,
  show_storage, show_account, show_receipt, Decoders, Printed, query, do_get_code, do_get_storage,
  do_get_account, do_get_receipt,
}
use monad_fork.Cli.Commands.{read_args, reads, by_table, do_get}
use monad_fork.Cli.Machine.Invariant.{Continues, IsDb, IsConsistent, lookup_lem}
use monad_fork.Text.{from_chars}
use monad_fork.Node.Views.{is_ok}
use monad_fork.Node.Outcome.{ok, err, abort}
use monad_fork.Node.Block.{Bytes}

-- Every receipt of the table decodes.
abbrev pub ReceiptsDecode : Decoders → Type 0
ReceiptsDecode dec = (value : Bytes) → dec.decode_receipt value ≢ none

-- The node that a key leads to in the chosen table, if there is one, has a value.
abbrev pub HasValue : TrieDb → Machine → Bytes → Type 0
HasValue db m key =
    (cursor : NodeCursor)
    → db.find (m.curr_section_prefix ++ m.curr_table_id ∷ key) m.curr_version ≡ some cursor
    → cursor.value ≢ none

-- The key of an account that is given by its address or by the hash of it.
abbrev pub account_nibbles : Decoders → Bytes → Bytes
account_nibbles dec hex = dec.nibbles (if length hex == 32 then hex else dec.keccak256 hex)

-- The nodes that `get` comes to have values, in each of the three tables.
pub record FindsValues (db : TrieDb) (dec : Decoders) (m : Machine) (key storage : Bytes)
    : Type 0 where
  pub in_state :
      (hex : Bytes)
      → m.curr_table_id ≡ db.state_nibble
      → dec.from_hex key ≡ some hex
      → HasValue db m (account_nibbles dec hex)
  pub in_storage :
      (hex slot : Bytes)
      → m.curr_table_id ≡ db.state_nibble
      → dec.from_hex key ≡ some hex
      → is_empty storage ≡ false
      → storage_slot db dec storage ≡ some slot
      → HasValue db m (
          account_nibbles dec hex
          ++ dec.nibbles (if is_numeric storage then dec.keccak256 slot else slot))
  pub in_code :
      (hex : Bytes)
      → m.curr_table_id ≡ db.code_nibble
      → dec.from_hex key ≡ some hex
      → HasValue db m (dec.nibbles hex)
  pub in_receipt :
      m.curr_table_id ≡ db.receipt_nibble
      → HasValue db m (dec.nibbles (dec.encode_unsigned (from_chars u64_max key).value))

-- The nodes that a `get` line comes to have values.
abbrev pub GetsValues : TrieDb → Decoders → Machine → List Bytes → Type 0
GetsValues db dec m [] = Unit
GetsValues db dec m (key ∷ []) = FindsValues db dec m key []
GetsValues db dec m (key ∷ storage ∷ []) = FindsValues db dec m key storage
GetsValues db dec m (key ∷ storage ∷ extra ∷ more) = Unit

module _ (db : TrieDb) (dec : Decoders) (d : IsDb db) where
  print_then-is_ok :
      (lines : List Message) (r : Printed) → is_ok r ≡ true → is_ok (print_then lines r) ≡ true
  print_then-is_ok lines r good = ground arith

  unless-is_ok :
      (b : Bool) (r : Printed)
      → (b ≡ false → is_ok r ≡ true)
      → is_ok (if b then ok [] else r) ≡ true
  unless-is_ok true r good = refl
  unless-is_ok false r good = good refl

  query-is_ok :
      (key : Bytes) (m : Machine) (found : Bytes → Printed)
      → IsConsistent db m
      → m.curr_table_id ≢ db.invalid_nibble
      → HasValue db m key
      → ((value : Bytes) → is_ok (found value) ≡ true)
      → is_ok (query db dec key m found) ≡ true
  unfolding query with_value
  query-is_ok key m found c chosen valued good =
      rw (lookup_lem db key m d c chosen)
        (elim (Option-cases
          (db.find (m.curr_section_prefix ++ m.curr_table_id ∷ key) m.curr_version)) [
            | inl q ↦ rw q
            | inr (cursor, q) ↦ rw q (elim (Option-cases cursor.value) [
              | inl none_ ↦ absurd (valued cursor q none_)
              | inr (value, e) ↦ rw (e, with_value) (ground (arith, good value))
            ])
          ])

  with_hex-is_ok :
      (o : Option Bytes) (f : Bytes → Printed)
      → ((hex : Bytes) → o ≡ some hex → is_ok (f hex) ≡ true)
      → is_ok (with_hex o f) ≡ true
  unfolding with_hex
  with_hex-is_ok none f good = refl
  with_hex-is_ok (some hex) f good = good hex refl

  module _ (m : Machine) (key storage : Bytes) (c : IsConsistent db m)
      (chosen : m.curr_table_id ≢ db.invalid_nibble)
      (valued : FindsValues db dec m key storage) where
    do_get_code-is_ok : m.curr_table_id ≡ db.code_nibble → is_ok (do_get_code db dec key m) ≡ true
    unfolding do_get_code
    do_get_code-is_ok at = with_hex-is_ok _ _ λ hex e.
        query-is_ok (dec.nibbles hex) m (show_code db dec) c chosen (valued.in_code hex at e)
          λ v. refl

    show_receipt-is_ok :
        ReceiptsDecode dec → (value : Bytes) → is_ok (show_receipt db dec value) ≡ true
    unfolding show_receipt
    show_receipt-is_ok decodes value = ground (arith, decodes value)

    do_get_receipt-is_ok :
        ReceiptsDecode dec
        → m.curr_table_id ≡ db.receipt_nibble
        → is_ok (do_get_receipt db dec key m) ≡ true
    unfolding do_get_receipt
    do_get_receipt-is_ok decodes at = ground (
      arith,
      query-is_ok (dec.nibbles (dec.encode_unsigned (from_chars u64_max key).value)) m
          (show_receipt db dec) c chosen (valued.in_receipt at) (show_receipt-is_ok decodes),
    )

    show_storage-is_ok : (value : Bytes) → is_ok (show_storage db dec value) ≡ true
    unfolding show_storage
    show_storage-is_ok value = ground arith

    storage_HasValue :
        (hex slot : Bytes)
        → HasValue db m (
            account_nibbles dec hex
            ++ dec.nibbles (if is_numeric storage then dec.keccak256 slot else slot))
        → HasValue db m (
            dec.nibbles (to_triedb_key db dec hex (length hex == 32))
            ++ dec.nibbles (to_triedb_key db dec slot (not (is_numeric storage))))
    unfolding to_triedb_key
    storage_HasValue hex slot given = elim (Bool-cases (is_numeric storage)) [
      | inl e ↦
          subst
            (λ b.
              HasValue db m
                (account_nibbles dec hex ++ dec.nibbles (if b then dec.keccak256 slot else slot))
              → HasValue db m (
                  account_nibbles dec hex
                  ++ dec.nibbles (if not b then slot else dec.keccak256 slot)))
            (sym e) (λ g. g) given
      | inr e ↦
          subst
            (λ b.
              HasValue db m
                (account_nibbles dec hex ++ dec.nibbles (if b then dec.keccak256 slot else slot))
              → HasValue db m (
                  account_nibbles dec hex
                  ++ dec.nibbles (if not b then slot else dec.keccak256 slot)))
            (sym e) (λ g. g) given
    ]

    account_HasValue :
        (hex : Bytes)
        → HasValue db m (account_nibbles dec hex)
        → HasValue db m (dec.nibbles (to_triedb_key db dec hex (length hex == 32)))
    unfolding to_triedb_key
    account_HasValue hex given = given

    do_get_storage-is_ok :
        (hex : Bytes)
        → m.curr_table_id ≡ db.state_nibble
        → dec.from_hex key ≡ some hex
        → is_ok (do_get_storage db dec (to_triedb_key db dec hex (length hex == 32)) storage m)
          ≡ true
    unfolding do_get_storage to_triedb_key
    do_get_storage-is_ok hex at e = unless-is_ok (is_empty storage) _ λ full.
        with_hex-is_ok _ _ λ slot s.
          query-is_ok _ m (show_storage db dec) c chosen
            (storage_HasValue hex slot (valued.in_storage hex slot at e full s)) show_storage-is_ok

    show_account-is_ok :
        (hex value : Bytes)
        → m.curr_table_id ≡ db.state_nibble
        → dec.from_hex key ≡ some hex
        → is_ok (show_account db dec (to_triedb_key db dec hex (length hex == 32)) storage m value)
          ≡ true
    unfolding show_account
    show_account-is_ok hex value at e = ground (arith, do_get_storage-is_ok hex at e)

    do_get_account-is_ok :
        m.curr_table_id ≡ db.state_nibble → is_ok (do_get_account db dec key storage m) ≡ true
    unfolding do_get_account
    do_get_account-is_ok at = with_hex-is_ok _ _ λ hex e.
        query-is_ok _ m (show_account db dec _ storage m) c chosen
          (account_HasValue hex (valued.in_state hex at e)) λ v. show_account-is_ok hex v at e

  reads-Continues :
      (m : Machine) (r : Printed) → IsConsistent db m → is_ok r ≡ true → Continues db (reads m r)
  reads-Continues m (ok lines) c good = c
  reads-Continues m (err e) c good = absurd (ground arith)
  reads-Continues m abort c good = absurd (ground arith)

  by_table-Continues :
      (m : Machine) (key storage : Bytes)
      → IsConsistent db m
      → ReceiptsDecode dec
      → m.curr_table_id ≢ db.invalid_nibble
      → FindsValues db dec m key storage
      → Continues db (by_table db dec key storage m)
  unfolding by_table
  by_table-Continues m key storage c decodes chosen valued =
      elim (Bool-cases (m.curr_table_id == db.state_nibble)) [
        | inl e ↦ rw e (
            reads-Continues m _ c
              (do_get_account-is_ok m key storage c chosen valued (ground arith)))
        | inr e ↦ rw e (elim (Bool-cases (m.curr_table_id == db.code_nibble)) [
          | inl f ↦ rw f (
              reads-Continues m _ c
                (do_get_code-is_ok m key storage c chosen valued (ground arith)))
          | inr f ↦ rw f (elim (Bool-cases (m.curr_table_id == db.receipt_nibble)) [
            | inl g ↦ rw g (
                reads-Continues m _ c
                  (do_get_receipt-is_ok m key storage c chosen valued decodes (ground arith)))
            | inr g ↦ rw g c
          ])
        ])
      ]

  read_args-Continues :
      (args : List Bytes) (m : Machine)
      → IsConsistent db m
      → ReceiptsDecode dec
      → m.curr_table_id ≢ db.invalid_nibble
      → GetsValues db dec m args
      → Continues db (read_args db dec args m)
  unfolding read_args
  read_args-Continues [] m c decodes chosen valued = c
  read_args-Continues (key ∷ []) m c decodes chosen valued =
      by_table-Continues m key [] c decodes chosen valued
  read_args-Continues (key ∷ storage ∷ []) m c decodes chosen valued =
      by_table-Continues m key storage c decodes chosen valued
  read_args-Continues (key ∷ storage ∷ extra ∷ more) m c decodes chosen valued = c

  pub do_get-Continues :
      (args : List Bytes) (m : Machine)
      → IsConsistent db m
      → ReceiptsDecode dec
      → (m.curr_table_id ≢ db.invalid_nibble → GetsValues db dec m args)
      → Continues db (do_get db dec args m)
  unfolding do_get
  do_get-Continues args m c decodes valued =
      elim (Bool-cases (m.curr_table_id == db.invalid_nibble)) [
        | inl e ↦ rw e c
        | inr e ↦ rw e (
            let chosen : m.curr_table_id ≢ db.invalid_nibble = λ p. ground arith in
            read_args-Continues args m c decodes chosen (valued chosen))
      ]
