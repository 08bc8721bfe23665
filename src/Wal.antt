-- ===== src/Wal.antt =====
-- cmd/monad/wal_reader.cpp: the reader of the log of consensus actions. The log is a file of entries of
-- one size, which another process appends to; a position in it counts entries.
pub mod Laws
use monad_fork.Prelude.{
  zero, suc, ◌+◌, true, false, ◌&&◌, none, some, [], ◌∷◌, ◌==◌, if◌then◌else◌, Bool, Option, List,
  length, ℕ,
}
use monad_fork.Ledger.{Codec, read_file}
use monad_fork.Node.Outcome.{Outcome, ok, and_then, or_abort}
use monad_fork.Node.Block.{Bytes, ConsensusHeader, ConsensusBody}

-- The action is the byte that stands in the file.
pub record WalEntry : Type 0 where
  pub action : ℕ
  pub id : ℕ

pub record WalReader : Type 0 where
  pub entries : List WalEntry
  pub cursor : ℕ

pub record WalResult : Type 0 where
  pub action : ℕ
  pub header : ConsensusHeader
  pub body : ConsensusBody

-- `cursor_.read`: a whole entry, or a failure.
unfoldable pub read_entry : List WalEntry → ℕ → Option WalEntry
read_entry [] n = none
read_entry (e ∷ entries) zero = some e
read_entry (e ∷ entries) (suc n) = read_entry entries n

-- The header and the body of an entry; a body that does not decode ends the process as well, since its
-- missing value is taken.
unfoldable pub load :
    Codec
    → (Bytes → Option ConsensusHeader)
    → (ℕ → Option Bytes)
    → (ℕ → Option Bytes)
    → WalEntry
    → Outcome WalResult
unfolding read_file
load codec decode_header headers bodies entry =
    and_then (read_file codec headers entry.id) λ header_data.
      and_then (or_abort (decode_header header_data)) λ header.
        and_then (read_file codec bodies header.block_body_id) λ body_data.
          and_then (or_abort (codec.decode_body body_data))
            λ body. ok (record { action = entry.action; header = header; body = body })

-- Without a whole entry at the cursor the execution got ahead, and the cursor stays.
unfoldable pub next :
    Codec
    → (Bytes → Option ConsensusHeader)
    → (ℕ → Option Bytes)
    → (ℕ → Option Bytes)
    → WalReader
    → Outcome (Option WalResult × WalReader)
unfolding read_entry load
next codec decode_header headers bodies w = elim (read_entry w.entries w.cursor) [
  | none ↦ ok (none, w)
  | some entry ↦
      and_then (load codec decode_header headers bodies entry)
        λ result. ok (some result, record w { cursor = w.cursor + 1 })
]

unfoldable pub same_entry : WalEntry → WalEntry → Bool
same_entry a b = a.id == b.id && a.action == b.action

-- The while loop, back from the entry before the position; the seek in front of the first entry fails
-- and ends it.
unfoldable pub search : WalEntry → List WalEntry → ℕ → Option ℕ
unfolding read_entry same_entry
search wanted entries zero = none
search wanted entries (suc n) =
    let rest = search wanted entries n in
    elim (read_entry entries n) [
      | none ↦ none
      | some entry ↦ if same_entry entry wanted then some n else rest
    ]

unfoldable pub settle : WalReader → Option ℕ → Bool × WalReader
settle w none = (false, record w { cursor = 0 })
settle w (some n) = (true, record w { cursor = n })

unfoldable pub rewind_to : WalEntry → WalReader → Bool × WalReader
unfolding search settle
rewind_to wanted w = settle w (search wanted w.entries (length w.entries))
