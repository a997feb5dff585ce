-- ===== src/Dag.antt =====
-- The graph of units (package dag): its reading functions, the stable part and the vote.
pub mod GraphInfo
pub mod Missing
pub mod WitnessReplace
pub mod MainChain
