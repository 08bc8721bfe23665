-- ===== src/Node/Block.antt =====
-- The data of blocks as cmd/monad reads it. A hash, an id or an address is the number that its
-- big-endian bytes spell, so `bytes32_t{}` is 0 and `bytes32_t{n}` is n. A transaction, receipt,
-- call frame or withdrawal is its encoding, a list of bytes.
use monad_fork.Prelude.{ℕ, List, Option}

abbrev pub Bytes : Type 0
Bytes = List ℕ

pub record BlockHeader : Type 0 where
  pub number : ℕ
  pub timestamp : ℕ
  pub gas_limit : ℕ
  pub gas_used : ℕ
  pub parent_hash : ℕ
  pub ommers_hash : ℕ
  pub transactions_root : ℕ
  pub withdrawals_root : Option ℕ
  pub base_fee_per_gas : Option ℕ
  -- the fields that cmd/monad hands on unread
  pub unread : Bytes

pub record Block : Type 0 where
  pub header : BlockHeader
  pub transactions : List Bytes
  pub ommers : List BlockHeader
  pub withdrawals : Option (List Bytes)

-- std::unique_ptr<CallTracerBase>, by the class it points to
pub data CallTracer : Type 0 where
  call_tracer : Bytes → CallTracer
  noop_call_tracer : CallTracer

-- A set of addresses: nothing reads the order.
abbrev pub AddressSet : Type 0
AddressSet = List ℕ

-- The part of MonadChainContext that depends on earlier blocks and on this one.
pub record ChainContext : Type 0 where
  pub grandparent_senders_and_authorities : Option AddressSet
  pub parent_senders_and_authorities : Option AddressSet
  pub senders_and_authorities : AddressSet

-- One of the three versions of MonadConsensusBlockHeader, by the fields that cmd/monad reads.
-- `base_fee` is (base_fee_trend, base_fee_moment), for the versions that have them.
pub record ConsensusHeader : Type 0 where
  pub seqno : ℕ
  pub parent_id : ℕ
  pub block_body_id : ℕ
  pub block_round : ℕ
  pub epoch : ℕ
  pub timestamp_ns : ℕ
  pub author : Bytes
  pub base_fee : Option (ℕ × ℕ)
  pub execution_inputs : BlockHeader
  pub delayed_execution_results : List BlockHeader

pub record ConsensusBody : Type 0 where
  pub transactions : List Bytes
  pub ommers : List BlockHeader
  pub withdrawals : Option (List Bytes)
