-- ===== src/Monad/Context.antt =====
-- What the chain context of a block should hold: the senders and authorities of its parent and its
-- grandparent in the ledger. The ledger's files are named by their checksums, so a file that is read
-- twice is the same; `header_of` and `body_of` are what the files of a name hold.
pub mod Cached
pub mod Attempted
pub mod Proposed
pub mod Handled
pub mod Executed
pub mod Filled
pub mod Listed
pub mod Rounds
pub mod Present
pub mod Ready
pub mod Linked
pub mod Folded
pub mod Readied
pub mod Found
pub mod Kept
pub mod Grown
pub mod Pruned
pub mod Finals
pub mod Sustained
pub mod Lasting
pub mod Lives
use monad_fork.Prelude.{◌≡◌, true, false, none, some, [], ◌∷◌, Bool, ltb, length, ℕ, Option, List}
use monad_fork.Ledger.{Codec, Disk, read_body, header_at}
use monad_fork.Node.Outcome.{ok}
use monad_fork.Node.Block.{Bytes, AddressSet, ChainContext, ConsensusHeader, ConsensusBody}
use monad_fork.Node.Externals.{ExecuteArgs, execute, Externals, History}
use monad_fork.Node.Senders.Laws.{sequence}
use monad_fork.Node.Senders.{senders_and_authorities}

-- One result for each transaction.
abbrev pub RecoversAll : Externals → Type 0
RecoversAll ext =
    (transactions : List Bytes) → length (ext.recover_senders transactions) ≡ length transactions

-- The blocks that were executed, newest first.
unfoldable pub executions : History → List ExecuteArgs
executions [] = []
executions (execute args ∷ h) = args ∷ executions h
executions (_ ∷ h) = executions h

pub record Contents : Type 0 where
  pub header_of : ℕ → ConsensusHeader
  pub body_of : ℕ → ConsensusBody

abbrev pub body_at : Contents → ℕ → ConsensusBody
body_at ledger id = ledger.body_of (ledger.header_of id).block_body_id

-- What a disk gives is what the ledger holds.
abbrev pub Agrees : Codec → Contents → Disk → Type 0
Agrees codec ledger disk =
    ((id : ℕ) (header : ConsensusHeader)
      → header_at codec disk.headers id ≡ ok header
      → header ≡ ledger.header_of id)
    × ((id : ℕ) (body : ConsensusBody)
        → read_body codec disk.bodies id ≡ ok body
        → body ≡ ledger.body_of id)

-- The set holds every sender, of whom none is missing, and every authority that was recovered.
abbrev pub IsSetOf : Externals → List Bytes → AddressSet → Type 0
IsSetOf ext transactions addresses =
    (senders : List ℕ) × (sequence (ext.recover_senders transactions) ≡ some senders)
    × (addresses ≡ senders_and_authorities senders (ext.recover_authorities transactions))

-- An optional set is that of a block, or absent.
abbrev pub IsSetIf : Externals → Bool → List Bytes → Option AddressSet → Type 0
IsSetIf ext needed transactions none = needed ≡ false
IsSetIf ext needed transactions (some addresses) =
    (needed ≡ true) × IsSetOf ext transactions addresses

abbrev pub parent_at : Contents → ℕ → ℕ
parent_at ledger id = (ledger.header_of id).parent_id

-- From block 2 on there is the set of the parent, from block 3 on that of the grandparent, and they
-- are those of the blocks in the ledger.
abbrev pub HasParents : Externals → Contents → ℕ → ℕ → ChainContext → Type 0
HasParents ext ledger number parent context =
    IsSetIf ext (ltb 1 number) (body_at ledger parent).transactions
      context.parent_senders_and_authorities
    × IsSetIf ext (ltb 2 number) (body_at ledger (parent_at ledger parent)).transactions
        context.grandparent_senders_and_authorities

-- The block that is executed is one of the ledger's, behind its parent there, and its context is that
-- of its ancestors there and of its own transactions.
abbrev pub HasContext : Externals → Contents → ExecuteArgs → Type 0
HasContext ext ledger args =
    (context : ChainContext) × (id : ℕ) × (args.block.header.number
      ≡ (ledger.header_of id).execution_inputs.number)
    × (args.block.transactions ≡ (body_at ledger id).transactions)
    × (args.hash_chain ≡ some (parent_at ledger id))
    × (args.context ≡ some context)
    × HasParents ext ledger args.block.header.number (parent_at ledger id) context
    × IsSetOf ext args.block.transactions context.senders_and_authorities
