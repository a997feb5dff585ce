-- ===== src/Transaction.antt =====
-- Payments (package transaction): the checks of a new unit, the pending pool, and what a stable
-- unit spends and creates.
pub mod Auth
pub mod BackTrack
pub mod Chain
pub mod Create
pub mod Ledger
pub mod Merkle
pub mod Submit
pub mod Validation
pub mod Commission
pub mod Stable
pub mod Pending
