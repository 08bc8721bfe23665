-- ===== src/Ledger.antt =====
-- cmd/monad/file_io.cpp and the walk over consensus headers of cmd/monad/runloop_monad.cpp.
pub mod Walk
pub mod Range
pub mod Ends
pub mod Fold
pub mod Chain
pub mod Head
pub mod Keeps
use monad_fork.Node.Block.{ConsensusHeader, ConsensusBody, Bytes, BlockHeader}
use monad_fork.Node.Outcome.{or_abort, Outcome, ok, abort, and_then, assert_that}
use monad_fork.Prelude.{zero, none, some, ◌==◌, if◌then◌else◌, ℕ, Bool, Option, List, leb}

pub data HeaderVersion : Type 0 where
  v0 v1 v2 : HeaderVersion

-- The functions of the libraries that read a ledger: hashing, hexadecimal, paths, RLP, and the
-- revision that a timestamp belongs to.
pub record Codec : Type 0 where
  pub blake3 : Bytes → ℕ
  pub stem : Bytes → Bytes
  pub from_hex : Bytes → Option Bytes
  pub to_bytes : Bytes → ℕ
  pub decode_timestamp_s : Bytes → Option ℕ
  pub decode_header : HeaderVersion → Bytes → Option ConsensusHeader
  pub decode_body : Bytes → Option ConsensusBody
  pub get_monad_revision : ℕ → ℕ
  pub has_monad_traits : ℕ → Bool
  pub monad_three : ℕ
  pub monad_four : ℕ

-- What the file system holds: the regular files of headers/ and bodies/ by id, and the targets of
-- the two head links.
pub record Disk : Type 0 where
  pub headers : ℕ → Option Bytes
  pub bodies : ℕ → Option Bytes
  pub proposed_head : Option Bytes
  pub finalized_head : Option Bytes

module _ (codec : Codec) where
  -- The file must exist and its checksum must be its name.
  unfoldable pub read_file : (ℕ → Option Bytes) → ℕ → Outcome Bytes
  read_file dir id =
      and_then (or_abort (dir id))
        λ contents. and_then (assert_that (codec.blake3 contents == id)) λ _. ok contents

  unfoldable pub read_body : (ℕ → Option Bytes) → ℕ → Outcome ConsensusBody
  unfolding read_file
  read_body dir id = and_then (read_file dir id) λ contents. or_abort (codec.decode_body contents)

  -- readlink fails: the zero id.
  unfoldable pub head_pointer_to_id : Option Bytes → Outcome ℕ
  head_pointer_to_id none = ok 0
  head_pointer_to_id (some resolved) =
      and_then (or_abort (codec.from_hex (codec.stem resolved))) λ hex. ok (codec.to_bytes hex)

  -- `if constexpr (traits::monad_rev() >= MONAD_FOUR) ...`
  unfoldable pub header_version : ℕ → HeaderVersion
  header_version rev =
      if leb codec.monad_four rev then v2 else if leb codec.monad_three rev then v1 else v0

  -- What a round of for_each_header decodes at `id`, with its four asserts.
  unfoldable pub header_at : (ℕ → Option Bytes) → ℕ → Outcome ConsensusHeader
  unfolding read_file header_version
  header_at dir id = and_then (read_file dir id) λ contents.
      and_then (or_abort (codec.decode_timestamp_s contents)) λ ts.
        and_then (assert_that (codec.has_monad_traits (codec.get_monad_revision ts))) λ _.
          or_abort (codec.decode_header (header_version (codec.get_monad_revision ts)) contents)
