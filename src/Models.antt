-- ===== src/Models.antt =====
-- The package internal/models: transactions, blocks and chains.
pub mod Transaction
pub mod Block
pub mod Chain
