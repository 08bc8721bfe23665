-- ===== src/Lib.antt =====
-- A verification library for the programs of monad-fork under cmd/: the node (cmd/monad), the
-- interactive database reader (cmd/monad_cli.cpp) and the tools of the VM (cmd/vm).
--
-- The node runs blocks on a chain state. cmd/monad/main.cpp reads the options, creates the event
-- ring (cmd/monad/event.cpp), finds the first block, computes the range of blocks and chooses a
-- runner. cmd/monad/runloop_ethereum.cpp replays blocks of a block database one by one; each is
-- validated, executed, committed, checked and finalized. cmd/monad/runloop_monad.cpp follows a
-- consensus ledger that another process writes: in each round it walks from the finalized head
-- and, if nothing is to be finalized, from the proposed head, executes the proposals it has not
-- seen, finalizes, and prunes its cache of senders. cmd/monad/runloop_monad_ethblocks.cpp replays
-- Monad blocks of a block database. cmd/monad/file_io.cpp reads the ledger's files. The reader is
-- a cursor over versions, sections and tables of the database, driven by lines of text.
--
-- Files:
--   Node: what the runners share. Node/Outcome is the result type (BOOST_OUTCOME and failed asserts),
--     Node/Block the data, Node/Externals the objects of other libraries, Node/Run the monad of the
--     runners, Node/Senders the sender recovery, Node/Views what a history of calls says.
--   Ethereum: process_ethereum_block (Ethereum/Success: when it succeeds); Ethereum/Runloop: runloop_ethereum.
--   Ledger: read_file, read_body, head_pointer_to_id; Ledger/Walk: handle_header, for_each_header.
--   Monad/Validate, Monad/Cache, Monad/Propose: the checks, the block cache and propose_block;
--     Monad/Handle: handle_to_execute; Monad/Reading: the two deques of a round; Monad/Finalize: the
--     loops over them; Monad/Runloop and Monad/Start: runloop_monad; Monad/Context: what the chain
--     contexts of its blocks should hold, and its rounds seen as steps on the block cache.
--   EthBlocks: process_monad_block of cmd/monad/runloop_monad_ethblocks.cpp; EthBlocks/Warm: the sets
--     computed at the start; EthBlocks/Runloop: runloop_monad_ethblocks.
--   Main: end_block_num, the choice of the runner, the exit code; Main/Options: the options and their
--     checks; Main/Start: the event ring, the first block, the block hashes; Main/Run: from the first
--     block to the end of the runner; Main/Program: main as a whole.
--   Event: the configuration of the ring in cmd/monad/event.cpp; Event/Files: the system calls;
--     Event/Ring: the creation of the ring's file and the set-up of the recorder; Event/Ring/Calls:
--     what a log of those calls says.
--   Text: the parts of the C++ library that parse input. Cli/Machine: DbStateMachine; Cli/Actions: the
--     do_ functions; Cli/Commands: interactive_impl; Cli/NodeStats and Cli/Report: do_node_stats (Cli/Report/Text: its lines);
--     Cli/Program: main; Cli/Position: the cursor's abstract positions and moves. Text/Cli11: the library for options.
--   Wal: the reader of the log of consensus actions, cmd/monad/wal_reader.cpp.
--   Vm/Stopwatch: cmd/vm/mce/src/stopwatch.hpp; Vm/Mce: cmd/vm/mce, with the instrumented classes in
--     Vm/Mce/Instrumentable, mce_main in Vm/Mce/Stages, the options in Vm/Mce/Options and main in
--     Vm/Mce/Main; Vm/ParserTool: cmd/vm/parser; Vm/TypeCheck: cmd/vm/type-check.
--   Tests: a sample chain, and the theorems at concrete inputs.
--
-- The database, the hash buffers, the EVM and the event recorder are not part of the repository. A
-- runner's state is therefore the history of the calls that it made of them, newest first, and an
-- answer of theirs is a function of that history (Node/Externals). The ledger's files are read afresh
-- in each round, so a round is given the disk as its three readings find it (Monad/Reading, Tick).
-- In the same way the state of the event ring's creation is the log of its system calls, and what the
-- driver of the VM adds to its libraries is the trace of marks around their calls.
-- Hashing, RLP and hexadecimal are functions in Ledger, Codec and Cli/Actions, Decoders.
--
-- A failed assert or an uncaught exception is the outcome `abort`. uint64_t is a number with its
-- wrap-around in add64 and sub64 (Prelude/Tests); counters of nodes in memory do not wrap around.
-- The calls that a traversal makes of its machine and of the copies of it are one sequence, whatever
-- fibers make them.
-- The main loops go over a list of readings of `stop`, or of rounds, and are `running` when it is used
-- up; for runloop_ethereum a list as long as the range of blocks is enough. The walk over headers has
-- fuel, and more fuel than the head's sequence number is enough.
--
-- Not modelled: the text of log lines and of most messages, sleeping, the opening of databases
-- (only what they are opened with is) and the contents of snapshots, which are library calls, and the handler of MonadException in main:
-- an exception of a library ends a run like a failed assert. The server for statesync is a
-- library's. The clang-tidy check under utils/clang-tidy-auto-const is a plugin written against
-- the syntax tree of a compiler, and largely a copy of that project's own check; third_party is
-- vendored. A run that comes to the largest block number, where block_num wraps around, is
-- modelled, but the theorems on ranges of blocks leave it aside.
pub mod Prelude
pub mod Node
pub mod Ethereum
pub mod Ledger
pub mod Monad
pub mod EthBlocks
pub mod Event
pub mod Main
pub mod Text
pub mod Cli
pub mod Wal
pub mod Vm
pub mod Tests
