-- ===== src/Wire.antt =====
-- deps/CoinCore/src/CoinNodeData.cpp: the structures of the peer-to-peer protocol as bytes.
pub mod VarInt
pub mod Codec
pub mod OutPoint
pub mod TxIn
pub mod TxOut
pub mod Transaction
pub mod BlockHeader
pub mod Block
pub mod Headers
pub mod Locator
