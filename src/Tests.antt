-- ===== src/Tests.antt =====
-- Witnesses: the results that have hypotheses, applied to concrete values of the program.
mod Instances
mod Stores
mod Leveldb
mod Dag
mod Transaction
mod Chain
mod Auth
mod BackTrack
mod Create
mod Node
mod Delivery
mod Signer
mod Wallet
mod MemDb
