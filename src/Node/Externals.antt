-- ===== src/Node/Externals.antt =====
-- The objects outside cmd/monad that a runner drives: the triedb, the hash buffers, the EVM, the
-- event recorder. Their state is not readable here, so a runner's state is the history of the calls
-- it has made of them, newest first, and an answer of theirs is a function of that history.
use monad_fork.Prelude.{ℕ, Bool, List, Option}
use monad_fork.Node.Block.{ConsensusHeader, Bytes, BlockHeader, Block, CallTracer, ChainContext}
use monad_fork.Node.Outcome.{Outcome}

-- The arguments of execute_block. `hash_chain` is the block whose ancestors the hash buffer holds,
-- none for the buffer of finalized blocks; `context` is what revert_transaction captures.
pub record ExecuteArgs : Type 0 where
  pub rev : ℕ
  pub block : Block
  pub senders : List ℕ
  pub authorities : List (List (Option ℕ))
  pub hash_chain : Option ℕ
  pub call_tracers : List CallTracer
  pub context : Option ChainContext

pub record Executed : Type 0 where
  pub receipts : List Bytes
  pub call_frames : List (List Bytes)

-- The arguments of BlockState::commit.
pub record CommitArgs : Type 0 where
  pub block_id : ℕ
  pub header : BlockHeader
  pub receipts : List Bytes
  pub call_frames : List (List Bytes)
  pub senders : List ℕ
  pub transactions : List Bytes
  pub ommers : List BlockHeader
  pub withdrawals : Option (List Bytes)

-- What record_block_start is told, beside the chain id.
pub record BlockStart : Type 0 where
  pub block_id : ℕ
  pub execution_inputs : BlockHeader
  pub parent_hash : ℕ
  pub block_round : ℕ
  pub epoch : ℕ
  pub timestamp_ns : ℕ
  pub ntxns : ℕ
  pub author : Bytes
  pub base_fee : Option (ℕ × ℕ)

-- The calls that change one of the objects, or write a line of statistics.
pub data Call : Type 0 where
  -- Db
  set_block_and_prefix : ℕ → ℕ → Call
  execute : ExecuteArgs → Call
  commit : CommitArgs → Call
  finalize : ℕ → ℕ → Call
  update_verified_block : ℕ → Call
  update_proposed_metadata : ℕ → ℕ → Call
  update_voted_metadata : ℕ → ℕ → Call
  -- BlockHashBufferFinalized::set
  hash_buffer_set : ℕ → ℕ → Call
  -- BlockHashChain: block hash, number, block id, parent id
  chain_propose : ℕ → ℕ → ℕ → ℕ → Call
  chain_finalize : ℕ → Call
  -- the event recorder
  record_block_qc : ConsensusHeader → ℕ → Call
  record_block_start : BlockStart → Call
  record_evm_enter record_evm_exit : Call
  record_block_result : Bool → Call
  record_block_finalized : ℕ → ℕ → Call
  record_block_verified : List ℕ → Call
  -- block number, blocks, transactions, gas
  log_tps : ℕ → ℕ → ℕ → ℕ → Call
  -- block number, block id, transactions, gas
  log_block_tps : ℕ → ℕ → ℕ → ℕ → Call

abbrev pub History : Type 0
History = List Call

-- What cmd/monad asks of the libraries.
pub record Externals : Type 0 where
  -- Chain
  pub get_revision : ℕ → ℕ → ℕ
  pub get_monad_revision : ℕ → ℕ
  pub static_validate_header : BlockHeader → Outcome (Unit {0})
  -- whether SWITCH_EVM_TRAITS, SWITCH_MONAD_TRAITS has a case for the revision
  pub has_evm_traits : ℕ → Bool
  pub has_monad_traits : ℕ → Bool
  -- validation
  pub static_validate_block : ℕ → Block → Outcome (Unit {0})
  pub static_validate_consensus_header : ConsensusHeader → Outcome (Unit {0})
  pub static_validate_monad_body : ℕ → List ℕ → List Bytes → Outcome (Unit {0})
  pub validate_output_header : BlockHeader → BlockHeader → Outcome (Unit {0})
  -- signatures
  pub recover_senders : List Bytes → List (Option ℕ)
  pub recover_authorities : List Bytes → List (List (Option ℕ))
  -- to_bytes(keccak256(rlp::encode_block_header(header)))
  pub block_hash : BlockHeader → ℕ
  -- answers that depend on what was called before
  pub execute_block : ExecuteArgs → History → Outcome Executed
  pub read_eth_header : History → BlockHeader
  -- BlockHashChain::find_chain(parent).get(number)
  pub chain_hash : ℕ → ℕ → History → ℕ
  -- mpt::INVALID_BLOCK_NUM
  pub invalid_block_num : ℕ
  -- mpt::Db: the latest finalized version, and whether find(proposal_prefix(id), seqno) has a value
  pub latest_finalized_version : History → ℕ
  pub has_proposal : ℕ → ℕ → History → Bool
