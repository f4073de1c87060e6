-- ===== src/Vault/Blocks.antt =====
-- The classes BlockHeader and MerkleBlock of CoinDB/src/Schema.h and Schema.cpp, as the vault stores
-- them.
use coin_vault.Common.{Bytes, ℕ, ◌≡◌, refl, List, reverse}
use coin_vault.Wire.BlockHeader as CoinHeader

pub record BlockHeader : Type 0 where
  pub hash : Bytes
  pub height : ℕ
  pub version : ℕ
  pub prevhash : Bytes
  pub merkleroot : Bytes
  pub timestamp : ℕ
  pub bits : ℕ
  pub nonce : ℕ

-- `get_hash` stands for the hash function of headers; `getHashLittleEndian` reverses what it gives.
unfoldable pub from_coin_core : (Bytes → Bytes) → CoinHeader.BlockHeader → ℕ → BlockHeader
from_coin_core get_hash h height = record {
  hash = reverse (get_hash (CoinHeader.get_serialized h));
  height = height;
  version = h.version;
  prevhash = h.prev_block_hash;
  merkleroot = h.merkle_root;
  timestamp = h.timestamp;
  bits = h.bits;
  nonce = h.nonce;
}

unfoldable pub to_coin_core : BlockHeader → CoinHeader.BlockHeader
to_coin_core h = record {
  version = h.version;
  prev_block_hash = h.prevhash;
  merkle_root = h.merkleroot;
  timestamp = h.timestamp;
  bits = h.bits;
  nonce = h.nonce;
}

pub to_coin_core-from_coin_core :
    (get_hash : Bytes → Bytes) (h : CoinHeader.BlockHeader) (height : ℕ)
    → to_coin_core (from_coin_core get_hash h height) ≡ h
unfolding to_coin_core from_coin_core
to_coin_core-from_coin_core get_hash h height = refl

pub record MerkleBlock : Type 0 where
  pub blockheader : BlockHeader
  pub txcount : ℕ
  pub hashes : List Bytes
  pub flags : Bytes
