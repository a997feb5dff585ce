-- ===== src/Leveldb.antt =====
-- leveldb: the tables of the ledger in a store of keys and values.
pub mod Store
pub mod Units
pub mod Outputs
pub mod Votes
pub mod Keys
pub mod Slots
pub mod Elsewhere
pub mod Replay
pub mod ParentTable
