-- ===== src/Lib.antt =====
-- ResilientDB: the ordering of requests by PBFT, their execution, and the stores that they change.
--
-- The requests of clients are gathered in batches by ResponseManager, which also counts the replicas'
-- responses. A batch reaches a replica in Commitment. The primary gives it a number (AssignNextSeq)
-- and broadcasts a pre-prepare message; the replicas answer with prepare and commit votes. The
-- MessageManager passes every message on to the TransactionCollector of its number, which the
-- LockFreeCollectorPool holds, and the collector counts the votes and hands the request to the
-- TransactionExecutor once two quorums are there. The executor puts the requests in the order of
-- their numbers, tells the pool about each number, and has a TransactionManager run them: the
-- KVExecutor on a MemoryDB or a ResLevelDB, or the UTXO ledger. Recovery writes the messages to a log
-- and reads them back. Where the primary is too slow, ViewChangeManager takes the replicas to the next
-- view and its primary, with what was prepared and the checkpoints of CheckPointManager. The
-- DuplicateManager keeps a request from being proposed or executed again; SystemInfo and ResDBConfig
-- hold the view, the replicas and the quorums.
--
-- The files and the code that they model:
--   Common, Common/*      helpers: tests, lists, integers, maps (std::map, std::set)
--   Messages              platform/proto/resdb.proto, NewRequest
--   Config                platform/config/resdb_config.cpp; Config/Quorum and Config/Defaults are
--                         about the quorums and the defaults
--   Execution/SystemInfo  platform/consensus/execution/system_info.cpp
--   Execution/Executor    platform/consensus/execution/transaction_executor.cpp: Commit is `commit`,
--                         a round of OrderMessage is `order`; Executor/Spec says what the order
--                         should be, Executor/Ordering and Executor/Refinement compare; the
--                         threads that run the requests are Executor/Rounds, and
--                         Executor/Agreement compares two replicas
--   Execution/DuplicateManager  platform/consensus/execution/duplicate_manager.cpp; a round of
--                         UpdateRecentHash is `update_recent_hash`
--   Pbft/Status, Pbft/Collector  platform/consensus/ordering/pbft/transaction_collector.{h,cpp}:
--                         AddRequest is `add_request`, Commit is `commit`; Collector/Tally, Steps and
--                         Safety count the votes of a history, Collector/Prepared is about hashes
--   Pbft/Pool             platform/consensus/ordering/pbft/lock_free_collector_pool.cpp
--   Pbft/StatusChange, Pbft/MessageManager  platform/consensus/ordering/pbft/message_manager.cpp:
--                         MayConsensusChangeStatus, AssignNextSeq, AddConsensusMsg
--   Pbft/Commitment       platform/consensus/ordering/pbft/commitment.cpp: ProcessNewRequest; the
--                         other handlers are in Commitment/Votes
--   Pbft/CheckPoint       platform/consensus/ordering/pbft/checkpoint_manager.cpp and
--                         chain/state/chain_state.cpp: UpdateCheckPointStatus is `take_request`;
--                         CheckPoint/Votes has ProcessCheckPoint and the stable checkpoint
--   Pbft/ViewChange       platform/consensus/ordering/pbft/viewchange_manager.cpp: ViewChange/Redo is
--                         GetPrepareMsg, Validity is IsValidViewChangeMsg, NewView is ProcessNewView
--                         and SendNewViewMsg, Complaints has the timers of the clients' complaints,
--                         Handlers the other handlers and the rounds of the two threads, and Runs
--                         puts them together
--   Pbft/ResponseManager  platform/consensus/ordering/pbft/response_manager.cpp: ProcessResponseMsg and
--                         the answers to clients; ResponseManager/Batching has DoBatch and the rounds
--                         of the two threads, Counting and Payload are about the f + 1 responses, and
--                         Answers about what the clients are sent
--   Recovery              platform/consensus/recovery/recovery.cpp: the log's writing; Recovery/Replay
--                         is its reading, Recovery/Sizes the lengths, Recovery/Frames, RoundTrip and
--                         Crash compare the two
--   Storage               chain/storage/memory_db.cpp
--   LevelDb               chain/storage/leveldb.cpp; LevelDb/Refinement compares it with MemoryDB, and
--                         LevelDb/Batched is about writes that wait
--   Kv                    executor/kv/kv_executor.cpp, executor/common/transaction_manager.cpp
--   Utxo                  executor/utxo: manager/wallet.cpp, manager/tx_mempool.cpp,
--                         manager/transaction.cpp, executor/utxo_executor.cpp; Mempool/Holdings,
--                         Transaction/Spending, Inputs, Accepting and Balance follow the worth of
--                         outputs; a sum of values wraps around as an int64_t does, Common/Int64
--   Tests                 runs on concrete inputs
--
-- Conventions. A handler is a function from the state and the message to the new state and what the
-- code returns; what it sends, or hands to another component, is a list in the state or the result.
-- Calls follow one another: the mutexes and the atomics of the code are what this rests on. Machine
-- numbers are ℕ, with `% 2 ^ w` where the code's arithmetic can wrap, and an int64_t of the
-- ledger is an integer that Common/Int64 wraps around. A queue is a list, oldest
-- first. Containers that the code orders by pointers or by hashing are lists in the order of
-- insertion. The time that GetCurrentTime returns is an argument. Signatures, hashes and the
-- generated parsers are parameters.
--
-- Fuel. GetCapacity runs for 32 rounds, as many as a shift of a uint32_t has, and the decimal digits
-- of a 64-bit number for 20. The loops of Recovery that take a length and as many bytes run for as
-- many rounds as there are bytes, and each takes 8 of them at least. The loop of GetPrepareMsg is
-- given its number of rounds, from the least stable checkpoint to the last prepared number. All other
-- loops are recursions on lists.
--
-- Not modelled: sockets, threads and statistics; the transfer of requests that a replica missed; the
-- consensus managers and the load generator; the choice of a log's files by their names; geo-scale
-- consensus and PoE; the database that LevelDb calls and the contract machine, which are libraries of
-- others.
pub mod Common
pub mod Messages
pub mod Config
pub mod Execution
pub mod Pbft
pub mod Recovery
pub mod Utxo
pub mod Storage
pub mod LevelDb
pub mod Kv
pub mod Tests
