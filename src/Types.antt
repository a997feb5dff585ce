-- ===== src/Types.antt =====
-- core/types: hashes, payments, units and votes.
pub mod Hash
pub mod Payment
pub mod Unit
pub mod Messages
