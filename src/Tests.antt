-- ===== src/Tests.antt =====
-- The theorems applied to concrete data.
pub mod WireTests
pub mod ScriptTests
pub mod MerkleTests
pub mod ChainTests
pub mod VaultTests
pub mod PaymentTests
pub mod InsertTests
pub mod LedgerTests
pub mod Base58Tests
pub mod ArrivalsTests
pub mod BloomTests
