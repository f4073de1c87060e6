-- ===== src/Chain.antt =====
-- The tree of block headers in memory (CoinQ_blocks.h, CoinQ_blocks.cpp) and the work of a header.
pub mod Work
pub mod Headers
pub mod BestChain
pub mod Insert
pub mod Delete
pub mod Lookup
