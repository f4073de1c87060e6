-- ===== src/Vault.antt =====
-- The vault (CoinDB/src): the classes of its schema and the operations on them.
pub mod Blocks
pub mod Inputs
pub mod Outputs
pub mod Tx
pub mod Scripts
pub mod Pool
pub mod Keychain
pub mod Insert
pub mod CreateTx
pub mod Ledger
pub mod DeleteTx
pub mod Arrivals
pub mod Entry
