-- ===== src/Lib.antt =====
-- A verification library for the blockchain: a database server that orders transactions into epochs
-- and executes each epoch by deterministic optimistic concurrency control (Aria). Paths are from the
-- repository's root.
--
-- Parts and files:
--   HashMap: the concurrent hash table of include/common/hash_map.h (class HashMap, its methods
--     under their names). Bucket has the operations on one bucket, Laws and Size their laws,
--     Client any sequence of calls. Lock is include/common/spin_lock.h with the calls that take it.
--   Transaction: the transaction of src/block_server/transaction/mock/mock_transaction.cpp and the
--     read-write sets of include/proto/kv_rwset.proto. Wrapper is
--     include/blockserver/transaction/transaction_wrapper.h, Wire the serialized form.
--   Reserve: the reserve table of src/block_server/reserve_table/mock/mock_reserve_table.cpp
--     (reserve_rwset, dependency_analysis) and its provider. Cell, Tables and Batch go from one cell
--     to all the reservations of an epoch; Order is about their order, Race about several threads.
--   Database: src/block_server/database/impl/database_impl.cpp over level_db_stroage.cpp;
--     CommitList is its commit of a list at once, with Counts and Totals about the sums.
--   Executor: the two phases of a worker, executeList and commitList of
--     src/block_server/worker/impl/ transaction_executor_impl.cpp. They call the contract, buffer its
--     read-write set in Database and reserve it in Reserve; then they analyse, and commit or abort.
--     Decision says the same with no tables and no buffers; Agreement is about two servers.
--   Aria: serial orders of the committed transactions.
--   Coordinator: the transaction queue of src/block_server/coordinator/AriaCoordinator.cpp
--     (addTransaction, getWorkload, the loop of mainRoutine). Buffer is about what goes in, Drain about
--     what an epoch takes out.
--   Workers: the threads of src/block_server/worker/AriaWorker.cpp and the worker management and
--     mainRoutine of AriaCoordinator.cpp, one step of one thread at a time. Rows has the states that a
--     worker can be in, Invariant what holds at every moment, Phases that every step keeps it, Progress
--     that there is no deadlock. Closing is the destructor, and its Ends that it ends.
--   Manager: src/block_server/transaction/impl/transaction_manager_impl.cpp, which sends batches to the
--     Coordinator and at the end of an epoch sends the aborted transactions again; Retry and EpochEnd
--     are about that.
--   MockManager: its stand-in, src/block_server/transaction/mock/mock_transaction_manager.cpp, which makes
--     the transactions of the first epochs itself. Making is about those, Ending about the end of an epoch,
--     Rounds, First and Runs about the loop.
--   Blocks: src/block_server/database/impl/block_storage_to_file.cpp, and generateBlock and
--     blockVerifier of block_generator_impl.cpp, where the Manager's finished transactions go. Chain is
--     about the numbers and the hashes of the blocks.
--   Orm: src/block_server/database/orm/cc_orm_helper.cpp and the insert, query and iterator objects in
--     its impl folder, and the contracts of src/block_server/worker/impl/orm_test_chaincode.cpp, which
--     fill the read-write set that the Executor buffers and reserves. Contract is about that set; Table has
--     the fields of a table and the filters of a query.
--   Epochs: how a batch gets its epoch. UserCollector::run of
--     src/block_server/comm/client_proxy/user_collector.cpp, the loop of src/epoch_server/epoch_server.cpp
--     and verifyBatchHash of src/block_server/comm/client_proxy/comm_controller.cpp. Times is about
--     when the server goes on to the next epoch, Batches about the way of a batch, Tampering about what
--     the test of a batch sees.
--   Comm: the rest of comm_controller.cpp, by which batches come in and go to the Manager. The root has
--     getTransaction with its queue and clearTransactionForEpoch, Receive the two receivers. Queue is about
--     the order of the queue, Supply, Take and Give about a batch, Waiting about the end of a call, Null
--     about a call without a batch, Clear about what is deleted, Receive/Agreement about the transactions of two
--     servers. Stub is the stand-in of src/block_server/comm/stub/comm_stub.cpp, Collector the queue of
--     user_collector.cpp and the whole way of a batch.
--   Random: the random numbers of include/common/random.h.
--   CryptoSign: signatures and key files, src/common/crypto_sign.cpp; Keys has the theorems.
--   YamlConfig: the configuration, src/common/yaml_config.cpp, and how many receivers it makes the
--     communication controller start.
--   Server: the key files that the start of src/block_server/server.cpp makes by CryptoSign from the
--     configuration of YamlConfig. Keys is about what can be read from them.
--   User: the client, src/user/user.cpp, whose requests the user collector gets.
--   Sha256: the hash helper of include/common/sha256_hepler.h.
--   Prelude: Boolean tests, lists over the native numbers, keys with a decidable equality.
--   Tests: the theorems at concrete inputs.
--
-- State and errors: an object is a record and a method a function from state to state. A null
-- pointer read through is `none` of an Option. A loop of reserveRWset that ends by a weak
-- compare-exchange runs on fuel, in rounds; the executor gives two rounds, which are enough for an
-- id that is not 0 when no other thread writes the cell. The loop over an epoch's workloads runs
-- on rounds too, one more than there are transactions of the epoch being enough. The loop of
-- getTransaction runs on one round more than a batch may have, which is enough. What other threads
-- enqueue during that call is an argument, and so is what a waiting call would wait for; how often
-- the callback of the barrier raises the epoch during it is in the state. A wait on a condition
-- variable that does not end is `none`. What the executor leaves in the transactions of
-- MockManager, and the end of an epoch that a round of it reads, are arguments. A CHECK or DCHECK
-- that fails is `none`, and in Comm a failure with its kind (Failure); in the steps of Workers the
-- wait of getWorkload for transactions may end at any moment. Whether generateBlock succeeds at
-- the end of an epoch is an argument of Manager. An id and an epoch are natural numbers, with
-- their 32 bits where they are read from the wire or counted by the epoch server or the
-- communication controller.
--
-- Parameters: std::hash, LevelDB (record LevelDb with the laws of Get, Put and Delete), the
-- spurious failures of the weak compare-exchange, the smart contract that the executor invokes,
-- protobuf (record Protobuf with the laws of its streams and messages) and the SHA-256 helper, and
-- for the blocks the hash, the RSA signature, the Merkle tree and the success of a write to disk
-- (record BlockHelper); for the contracts the payloads as they are parsed, std::to_string and the
-- random texts (record ContractLibrary); std::stoi with std::to_string for the commit of a list;
-- for the batches the signatures with their test (record EpochHelper) and the SHA-256 functions
-- (record Sha256); for the receivers the texts of the answers, how they are parsed, and the first
-- bytes of a digest (record CommLibrary); for the stub the payload and the clock (record
-- StubLibrary), for MockManager the payload; OpenSSL (record OpenSsl) and yaml-cpp (record Yaml);
-- and for the client its payloads and std::stoi (record UserLibrary).
--
-- Not modelled: memory management, logging, the network (ZeroMQ), protobuf's own coding, the
-- destructors but the coordinator's, the calls of the ORM with empty bodies, the main functions
-- after the key files, and the copies of other projects under include/common and src/common. In
-- HashMap a method is its effect between lock and unlock; the steps of the lock are in Lock. The
-- executor is one worker; the threads that are modelled as steps are those of Workers, of the loop
-- of one reservation (Reserve.Race) and of the calls on a bucket (HashMap.Lock).
mod Prelude
pub mod HashMap
pub mod Transaction
pub mod Reserve
pub mod Sha256
pub mod Random
pub mod CryptoSign
pub mod YamlConfig
pub mod User
pub mod Server
pub mod Database
pub mod Executor
pub mod Aria
pub mod Manager
pub mod MockManager
pub mod Epochs
pub mod Comm
pub mod Orm
pub mod Blocks
pub mod Workers
pub mod Coordinator
mod Tests
