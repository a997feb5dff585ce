-- ===== src/MemDb.antt =====
-- Package dag/memdb: the tips of the graph, and the witnesses with the vote, kept in memory beside the database.
pub mod Parents
pub mod Witnesses
