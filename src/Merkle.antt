-- ===== src/Merkle.antt =====
-- deps/CoinCore/src/MerkleTree.h and MerkleTree.cpp. Throughout, `sha256_2` is the double SHA-256 of
-- OpenSSL, a parameter.
pub mod Tree
pub mod Partial
