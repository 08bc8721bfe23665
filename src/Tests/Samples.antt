-- ===== src/Tests/Samples.antt =====
-- A small chain: block n has the id n and the parent n - 1, and every file can be read.
use monad_fork.Prelude.{
  zero, suc, ◌+◌, ◌-◌, ◌≡◌, true, false, none, some, [], ◌∷◌, arith, Option, map, u64_max, ℕ,
}
use monad_fork.Ledger.{Codec, Disk, header_at}
use monad_fork.Ledger.Chain.{Complete}
use monad_fork.Ledger.Range.{Consecutive}
use monad_fork.Monad.Reading.{Tick}
use monad_fork.Monad.Runloop.Laws.{newest}
use monad_fork.Node.Views.{finalized_numbers}
use monad_fork.Node.Externals.{Externals}
use monad_fork.Node.Outcome.{ok, or_abort}
use monad_fork.Node.Block.{Bytes, BlockHeader, Block, ConsensusHeader}

abbrev pub sample_header : ℕ → BlockHeader
sample_header n = record {
  number = n;
  timestamp = 0;
  gas_limit = 30000;
  gas_used = 21000;
  parent_hash = 0;
  ommers_hash = 0;
  transactions_root = 0;
  withdrawals_root = none;
  base_fee_per_gas = none;
  unread = [];
}

abbrev pub sample_block : ℕ → Block
sample_block n = record {
  header = sample_header n;
  transactions = (1 ∷ []) ∷ (2 ∷ []) ∷ [];
  ommers = [];
  withdrawals = none;
}

abbrev pub sample_ext : Externals
sample_ext = record {
  get_revision = λ n t. 0;
  get_monad_revision = λ t. 4;
  static_validate_header = λ h. ok tt;
  has_evm_traits = λ r. true;
  has_monad_traits = λ r. true;
  static_validate_block = λ r b. ok tt;
  static_validate_consensus_header = λ h. ok tt;
  static_validate_monad_body = λ r s t. ok tt;
  validate_output_header = λ a b. ok tt;
  recover_senders = λ txs. map (λ tx. some 7) txs;
  recover_authorities = λ txs. map (λ tx. some 9 ∷ none ∷ []) txs;
  block_hash = λ h. h.number + 1000;
  execute_block = λ args h. ok (record { receipts = []; call_frames = [] });
  read_eth_header = λ h. sample_header 1;
  chain_hash = λ id n h. n + 1000;
  invalid_block_num = u64_max;
  latest_finalized_version = λ h. newest 0 (finalized_numbers h);
  has_proposal = λ id n h. false;
}

abbrev pub sample_consensus : ℕ → ConsensusHeader
sample_consensus n = record {
  seqno = n;
  parent_id = n - 1;
  block_body_id = n;
  block_round = n;
  epoch = 1;
  timestamp_ns = 0;
  author = [];
  base_fee = none;
  execution_inputs = sample_header n;
  delayed_execution_results = [];
}

abbrev pub first_of : Bytes → ℕ
first_of [] = 0
first_of (x ∷ rest) = x

-- There is no block 0.
abbrev pub consensus_at : ℕ → Option ConsensusHeader
consensus_at zero = none
consensus_at (suc n) = some (sample_consensus (suc n))

abbrev pub sample_codec : Codec
sample_codec = record {
  blake3 = first_of;
  stem = λ b. b;
  from_hex = some;
  to_bytes = first_of;
  decode_timestamp_s = λ b. some 0;
  decode_header = λ v b. consensus_at (first_of b);
  decode_body = λ b. some (record { transactions = []; ommers = []; withdrawals = none });
  get_monad_revision = λ t. 4;
  has_monad_traits = λ r. true;
  monad_three = 3;
  monad_four = 4;
}

abbrev pub sample_dir : ℕ → Option Bytes
sample_dir id = some (id ∷ [])

abbrev pub sample_disk : Disk
sample_disk = record {
  headers = sample_dir;
  bodies = sample_dir;
  proposed_head = some (4 ∷ []);
  finalized_head = some (3 ∷ []);
}

abbrev pub sample_tick : Tick
sample_tick = record {
  stop = false;
  at_finalized = sample_disk;
  at_proposed = sample_disk;
  at_execute = sample_disk;
}

pub sample_header_at : (id : ℕ) → header_at sample_codec sample_dir id ≡ or_abort (consensus_at id)
unfolding header_at
sample_header_at id = ground arith

pub sample-Consecutive : Consecutive sample_codec sample_dir
sample-Consecutive zero header parent e f = absurd (ground (arith, sample_header_at 0))
sample-Consecutive (suc zero) header parent e f =
    absurd (ground (arith, sample_header_at 0, sample_header_at 1))
sample-Consecutive (suc (suc n)) header parent e f =
    ground (arith, sample_header_at (suc n), sample_header_at (suc (suc n)))

pub sample-Complete : Complete sample_codec sample_dir 0 3
sample-Complete zero header e above = absurd (ground (arith, sample_header_at 0))
sample-Complete (suc zero) header e above = absurd (ground (arith, sample_header_at 1))
sample-Complete (suc (suc n)) header e above = (
  sample_consensus (suc n),
  ground (arith, sample_header_at (suc n), sample_header_at (suc (suc n))),
)
