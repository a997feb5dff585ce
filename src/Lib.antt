-- ===== src/Lib.antt =====
-- A verification library for the ledger of babyboy, a directed acyclic graph of units.
--
-- A unit names its parents, its authors and its messages, which spend outputs of earlier units and
-- pay new ones. The graph has a main chain along the best parents; a unit on it is stable once
-- enough witnesses stand above it. A stable unit settles its payments, a new one takes outputs out
-- of the pending pool. Nodes keep the tips of the graph and the witnesses in memory beside the
-- database.
--
-- What models what (paths from the repository's root):
-- - Prelude (with Prelude/Tests, Lists and Integers) has the shared names and list lemmas; Int64
--   the signed 64-bit integers, as bit patterns; Interface the queue of common/queue, the constants
--   of package `config`, and the ways in which a loop can end.
-- - Types/Hash, Types/Payment, Types/Unit, Types/Messages: common/types.go (the text of a hash) and
--   core/types. A hash and an address are numbers, a Go string that is compared is a list of bytes,
--   an `int` and an `int64` are 64-bit patterns. SHA3 of JSON is a parameter `digest`.
-- - Graphop/HashSet, Graphop/AddressSet, Graphop/HashMap: common/graphop, over Graphop/Keys and
--   Graphop/Assoc, lists without repeated keys. Go visits a map in any order; here the
--   order is that of the list.
-- - Dag/GraphInfo: the walks of GraphInfoGetter in dag/graph_info.go (`get_level` is GetLevel, and
--   so on), with Dag/GraphInfo/Level, BestParent, StableBall and WitnessLevel for the theorems;
--   Dag/Missing: GetMissingUnits and GetMissingStableUnitsHashOnMainChain of the same file, with
--   Missing/Follows and Completeness for what the lists must have and Soundness for what they may.
-- - Dag/MainChain: dag/main_chain.go, less GetMaxSubUnitLevelAtStableUnit. Dag/WitnessReplace:
--   dag/witness_replace.go.
-- - MemDb/Parents and MemDb/Witnesses: dag/memdb/parent_memdb.go and witness_memdb.go, over records
--   (`ParentDb`, `WitnessDb`) of what they use of the database. MemDb/Parents/Tables puts the first
--   over the tables of Leveldb, and Childless says what is a tip then.
-- - Transaction/Ledger: what package transaction uses of `boydb`, the database, as a record of
--   operations and laws. Transaction/Validation and Commission: transaction/utils.go.
--   Transaction/Stable: transaction/stableprocess.go, with Stable/Faults and Endings for how the loop
--   over the inputs and HandleUnit end. Transaction/Pending: transaction/pendingprocess.go.
-- - Transaction/Chain: transaction/consensus.go and the commissions of transaction/transaction.go,
--   on top of Transaction/Stable; Chain/Course has the loop over the stable units, Chain/Earnings
--   the witnesses' commissions, Chain/Rounds the loop of UpdateMainChain as the rounds that
--   it takes, and Chain/Accounts what they did to the outputs. Transaction/Auth, Merkle:
--   transaction/auth.go; a search that waits for a channel to which nothing is sent says `blocks`.
--   Transaction/BackTrack: transaction/backtrack.go, with BackTrack/Ends for its loop and
--   Pending/Unspent for what it does to the pool. Transaction/Create (with Create/Answers for
--   what it answers) and Submit: CreateTx, and RecvUnit with SubmitTXLoop, of
--   transaction/transaction.go.
-- - Signer: core/signer.go.
-- - Node/Network: what a node has around it, as a record of operations. Node/Sync: the handlers of
--   initEventBus in node/node.go and fetchData, with pickDataFromDag in Node/Sync/Pick;
--   Node/Sync/Runs has the sequences of events and of tasks, Node/Sync/Exchange and Delivery the
--   messages between two nodes. Node/Wallet and Node/Light: the commands of the same file
--   (`new_joint` is NewJoint); Node/Genesis: initGenesis.
-- - Leveldb: leveldb/dbservice.go. Leveldb/Store has the parameters: a store of keys and values
--   with a scan by prefix (leveldb/database.go and goleveldb), the texts of values (encoding/json),
--   and the prefixes of `config`. Leveldb/Units, Outputs and Votes have the operations;
--   Leveldb/Keys and Slots say when keys are equal or one starts another. Leveldb/Replay has the
--   abstract view of four tables (units, unspent and pending outputs, tips) as functions and the
--   sequences of writes, with Replay/Steps for the writes and Replay/Answers for the reads.
-- - Tests: concrete instances of every parameter, and the results with hypotheses applied to them.
--
-- State is passed explicitly: an operation takes the state and returns it changed. A read that
-- fails gives the zero unit where the source drops the error, and `none` where it looks at it. A
-- loop that the source bounds by nothing takes fuel and says `out_of_fuel`; the theorems give the
-- fuel that is enough (the length of the walk or of the queue, a weight of the units, or twice the
-- number of hashes that it can meet), or show that no fuel is. A goroutine of a node is a task in
-- its state, which runs from its start to its end between two events.
--
-- Not modelled: GetMaxSubUnitLevelAtStableUnit of dag/main_chain.go, which reads a variable that is
-- not declared; the service container of node/node.go; interleavings within one handler or task;
-- JSON, RLP, SHA3 and secp256k1; logging and locks; the packages that are copies of go-ethereum and
-- of other projects (p2p, event, log, crypto, account, leveldb/database.go, the rest of common).
-- Packages `boy`, `config` and `babyboy-dag/boydb` are not in the repository.
pub mod Prelude
pub mod Int64
pub mod Interface
pub mod Dag
pub mod Graphop
pub mod Leveldb
pub mod MemDb
pub mod Node
pub mod Signer
pub mod Tests
pub mod Transaction
pub mod Types
