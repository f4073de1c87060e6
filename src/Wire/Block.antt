-- ===== src/Wire/Block.antt =====
-- class CoinBlock of CoinNodeData.h and CoinNodeData.cpp.
use coin_vault.Common.{
  Bytes, length, u32, u64, drop, bytes_eq, ℕ, zero, suc, ◌+◌, ◌*◌, Bool, not, none, some, List, [],
  ◌∷◌, ◌++◌, reverse, ltb, Result, ◌>>=◌, ◌>>◌, throw_if, too_small, txs_exceed_block,
  merkle_root_mismatch, stuck, ok,
}
use coin_vault.Merkle.Tree.{get_root}
use coin_vault.Wire.VarInt
use coin_vault.Wire.BlockHeader
use coin_vault.Wire.BlockHeader.{BlockHeader}
use coin_vault.Wire.Transaction
use coin_vault.Wire.Transaction.{Transaction}
use coin_vault.Wire.Transaction.RoundTrip.{transaction_codec}
use coin_vault.Wire.Transaction.Scripts.{get_total_sent}
use coin_vault.Wire.Codec.{append_items, sum_sizes}
pub mod RoundTrip

pub record CoinBlock : Type 0 where
  pub block_header : BlockHeader
  pub txs : List Transaction

abbrev pub min_size : ℕ
min_size = 140

unfoldable pub get_size : CoinBlock → ℕ
unfolding sum_sizes transaction_codec
get_size b = 80 + VarInt.get_size (length b.txs) + sum_sizes transaction_codec b.txs

unfoldable pub get_serialized : CoinBlock → Bytes
unfolding append_items transaction_codec
get_serialized b =
    BlockHeader.get_serialized b.block_header
    ++ (VarInt.get_serialized (length b.txs) ++ append_items transaction_codec b.txs)

unfoldable pub sent_from : ℕ → List Transaction → ℕ
unfolding get_total_sent
sent_from total [] = total
sent_from total (t ∷ ts) = sent_from (u64 (total + get_total_sent t)) ts

-- `CoinBlock::getTotalSent`
unfoldable pub total_sent : CoinBlock → ℕ
unfolding sent_from
total_sent b = sent_from 0 b.txs

module _ (sha256_2 : Bytes → Bytes) where
  -- `addHash(txs[i].getHash())` for each transaction.
  unfoldable pub tx_hashes : List Transaction → List Bytes
  unfolding Transaction.get_serialized
  tx_hashes [] = []
  tx_hashes (t ∷ ts) = sha256_2 (Transaction.get_serialized t) ∷ tx_hashes ts

  -- `getRootLittleEndian`
  unfoldable pub root_of : List Transaction → Result Bytes
  unfolding get_root tx_hashes
  root_of txs = elim (get_root sha256_2 (tx_hashes txs)) [
    | none ↦ stuck
    | some root ↦ ok (reverse root)
  ]

  unfoldable pub is_valid_merkle_root : CoinBlock → Result Bool
  unfolding root_of bytes_eq
  is_valid_merkle_root b = do root ← root_of b.txs; ok (bytes_eq b.block_header.merkle_root root)

  unfoldable pub update_merkle_root : CoinBlock → Result CoinBlock
  unfolding root_of
  update_merkle_root b = do
    root ← root_of b.txs
    ok (record b { block_header = record b.block_header { merkle_root = root } })

  -- The loop over the transactions; `pos` is a `uint`. Its counter is a `uint` too, which is enough
  -- for less than 2^32 bytes.
  unfoldable pub read_txs : ℕ → Bytes → ℕ → Result (List Transaction × ℕ)
  unfolding Transaction.set_serialized Transaction.get_size
  read_txs zero bytes pos = ok ([], pos)
  read_txs (suc n) bytes pos = do
    field ← drop pos bytes
    tx ← Transaction.set_serialized field
    throw_if (ltb (length bytes) (u32 (pos + Transaction.get_size tx))) txs_exceed_block
    (later, end) ← read_txs n bytes (u32 (pos + Transaction.get_size tx))
    ok (tx ∷ later, end)

  -- The transactions that the object has already stay in front.
  unfoldable pub set_serialized : CoinBlock → Bytes → Result CoinBlock
  unfolding BlockHeader.set_serialized read_txs root_of bytes_eq
  set_serialized b bytes = do
    throw_if (ltb (length bytes) min_size) too_small
    header ← BlockHeader.set_serialized bytes
    field ← drop 80 bytes
    count ← VarInt.set_serialized field
    (txs, end) ← read_txs count bytes (80 + VarInt.get_size count)
    root ← root_of txs
    throw_if (not (bytes_eq header.merkle_root root)) merkle_root_mismatch
    ok (record { block_header = header; txs = b.txs ++ txs })
