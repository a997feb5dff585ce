-- ===== src/Node.antt =====
-- node/node.go: a node's exchange with its peers, and what a user asks of it.
pub mod Genesis
pub mod Light
pub mod Network
pub mod Sync
pub mod Wallet
