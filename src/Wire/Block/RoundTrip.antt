-- ===== src/Wire/Block/RoundTrip.antt =====
-- Reading back what `getSerialized` of class CoinBlock wrote.
use coin_vault.Common.{
  Bytes, length, length-append, drop-append, drop-length, seek, u32, bytes_eq_refl, drop, bytes_eq,
  ℕ, ◌+◌, ◌^◌, ◌≤◌, ◌<◌, ◌≡◌, refl, inl, inr, true, false, not, List, [], ◌∷◌, ◌++◌, reverse,
  append_assoc, arith, ltb, if◌then◌else◌, Bool-cases, ltb-false, ◌>>=◌, ◌>>◌, throw_if,
  merkle_root_mismatch, err, ok,
}
use coin_vault.Wire.VarInt
use coin_vault.Wire.VarInt.{get_size_bounds}
use coin_vault.Wire.BlockHeader
use coin_vault.Wire.BlockHeader.{length-block_header, block_header_round_trip}
use coin_vault.Wire.Transaction
use coin_vault.Wire.Transaction.{Transaction}
use coin_vault.Wire.Transaction.RoundTrip.{
  transaction_codec, transaction_round_trip, length-transaction,
}
use coin_vault.Wire.Codec.{append_items, sum_sizes, AllValid, length-append_items}
use coin_vault.Wire.Block.{
  CoinBlock, min_size, get_size, get_serialized, root_of, tx_hashes, is_valid_merkle_root,
  update_merkle_root, read_txs, set_serialized,
}
use coin_vault.Merkle.Tree.{get_root_total}
use native.Mathlib.Nat.{add-zero, add_assoc}

-- Every part is valid, and the whole is shorter than 2^32 bytes.
pub record IsValid (b : CoinBlock) : Type 0 where
  pub header_valid : BlockHeader.IsValid b.block_header
  pub txs_valid : AllValid transaction_codec b.txs
  pub size_range : get_size b < 2 ^ 32

length-sum_sizes_tx : (ts : List Transaction) → length ts ≤ sum_sizes transaction_codec ts
unfolding sum_sizes transaction_codec Transaction.get_size
length-sum_sizes_tx [] = omega arith
length-sum_sizes_tx (t ∷ ts) = omega (arith, length-sum_sizes_tx ts)

-- Transactions that were written under the cursor are read back, and none exceeds the block.
read_txs-append_items :
    (sha256_2 : Bytes → Bytes) (ts : List Transaction) (bs rest : Bytes) (pos : ℕ)
    → AllValid transaction_codec ts
    → drop pos bs ≡ ok (append_items transaction_codec ts ++ rest)
    → pos + sum_sizes transaction_codec ts < 2 ^ 32
    → read_txs sha256_2 (length ts) bs pos ≡ ok (ts, pos + sum_sizes transaction_codec ts)
unfolding append_items sum_sizes read_txs transaction_codec
read_txs-append_items sha256_2 [] bs rest pos v h fits = rw add-zero refl
read_txs-append_items sha256_2 (t ∷ ts) bs rest pos v h fits =
    let later =
      read_txs-append_items sha256_2 ts bs rest (pos + Transaction.get_size t) v.1 behind
        (omega arith) in
    rw
      (
        here,
        transaction_round_trip t (append_items transaction_codec ts ++ rest) v.0,
        wrap,
        inside,
        later,
        add_assoc,
      )
      refl
  where
    here :
        drop pos bs
        ≡ ok (Transaction.get_serialized t ++ (append_items transaction_codec ts ++ rest))
    here = rw append_assoc at h

    wrap : u32 (pos + Transaction.get_size t) ≡ pos + Transaction.get_size t
    wrap = omega arith

    behind : drop (pos + Transaction.get_size t) bs ≡ ok (append_items transaction_codec ts ++ rest)
    behind =
        seek pos _ bs (Transaction.get_serialized t) _ here
          (omega (arith, length-transaction t v.0))

    inside : ltb (length bs) (pos + Transaction.get_size t) ≡ false
    inside = ltb-false _ _ (omega (arith, drop-length _ bs behind))

root_of_total :
    (sha256_2 : Bytes → Bytes) (ts : List Transaction)
    → (root : Bytes) × (root_of sha256_2 ts ≡ ok root)
unfolding root_of
root_of_total sha256_2 ts =
    let (root, e) = get_root_total sha256_2 (tx_hashes sha256_2 ts) in
    (reverse root, rw (root_of, e) refl)

-- The test of the root, and what `isValidMerkleRoot` tells.
test_root :
    (sha256_2 : Bytes → Bytes) (b after : CoinBlock)
    → (root_of sha256_2 b.txs >>= λ root.
        throw_if (not (bytes_eq b.block_header.merkle_root root)) merkle_root_mismatch >> ok after)
      ≡ (is_valid_merkle_root sha256_2 b >>= λ valid.
          if valid then ok after else err merkle_root_mismatch)
unfolding is_valid_merkle_root
test_root sha256_2 b after =
    let (root, e) = root_of_total sha256_2 b.txs in
    unfold is_valid_merkle_root in
    elim (Bool-cases (bytes_eq b.block_header.merkle_root root)) [
      | inl same ↦ rw (e, same) refl
      | inr other ↦ rw (e, other) refl
    ]

-- The fields one after the other, with `rest` behind them.
module _ (b : CoinBlock) (rest : Bytes) where
  abbrev count : ℕ
  count = length b.txs

  abbrev from_txs : Bytes
  from_txs = append_items transaction_codec b.txs ++ rest

  abbrev from_count : Bytes
  from_count = VarInt.get_serialized count ++ from_txs

  abbrev whole : Bytes
  whole = BlockHeader.get_serialized b.block_header ++ from_count

  serialized_whole : get_serialized b ++ rest ≡ whole
  unfolding get_serialized
  serialized_whole = simp append_assoc

  module _ (v : IsValid b) where
    count_cursor : drop 80 whole ≡ ok from_count
    unfolding BlockHeader.get_size
    count_cursor = drop-append 80 _ from_count (length-block_header b.block_header v.header_valid)

    txs_cursor : drop (80 + VarInt.get_size count) whole ≡ ok from_txs
    txs_cursor =
        seek 80 _ whole (VarInt.get_serialized count) from_txs count_cursor
          (omega (arith, VarInt.length-varint count))

    size : get_size b ≡ 80 + VarInt.get_size count + sum_sizes transaction_codec b.txs
    unfolding get_size
    size = refl

    fits : 80 + VarInt.get_size count + sum_sizes transaction_codec b.txs < 2 ^ 32
    fits = omega (arith, size, v.size_range)

    count_fits : count < 2 ^ 64
    count_fits = omega (arith, fits, length-sum_sizes_tx b.txs)

    total : length whole ≡ get_size b + length rest
    total = omega (
      arith,
      size,
      drop-length _ whole txs_cursor,
      length-append (append_items transaction_codec b.txs) rest,
      length-append_items transaction_codec b.txs v.txs_valid,
    )

    set_serialized_whole :
        (sha256_2 : Bytes → Bytes) (before : CoinBlock)
        → min_size ≤ get_size b
        → set_serialized sha256_2 before whole ≡ (
            is_valid_merkle_root sha256_2 b >>= λ valid.
            if valid then ok (record b { txs = before.txs ++ b.txs }) else err merkle_root_mismatch)
    unfolding set_serialized
    set_serialized_whole sha256_2 before long =
        rw
          (
            ltb-false (length whole) min_size (omega (arith, total)),
            block_header_round_trip b.block_header from_count v.header_valid,
            count_cursor,
            VarInt.varint_round_trip count from_txs count_fits,
            read_txs-append_items sha256_2 b.txs whole rest _ v.txs_valid txs_cursor fits,
          )
          (test_root sha256_2 b (record b { txs = before.txs ++ b.txs }))

-- For a block whose header and transactions are valid and whose serialized form has from 140 to
-- 2^32 - 1 bytes, any hash function and whatever bytes follow: setSerialized on what getSerialized
-- wrote gives the header and the transactions back, behind those that the object had already, when
-- isValidMerkleRoot holds for the block, and throws that the Merkle root does not match when it
-- does not.
pub block_round_trip :
    (sha256_2 : Bytes → Bytes) (b before : CoinBlock) (rest : Bytes)
    → IsValid b
    → min_size ≤ get_size b
    → set_serialized sha256_2 before (get_serialized b ++ rest) ≡ (
        is_valid_merkle_root sha256_2 b >>= λ valid.
        if valid then ok (record b { txs = before.txs ++ b.txs }) else err merkle_root_mismatch)
block_round_trip sha256_2 b before rest v long =
    rw (serialized_whole b rest) (set_serialized_whole b rest v sha256_2 before long)

-- The root that updateMerkleRoot stores is valid.
update_merkle_root_lem :
    (sha256_2 : Bytes → Bytes) (b : CoinBlock)
    → (update_merkle_root sha256_2 b >>= is_valid_merkle_root sha256_2) ≡ ok true
unfolding update_merkle_root is_valid_merkle_root
update_merkle_root_lem sha256_2 b =
    let (root, e) = root_of_total sha256_2 b.txs in
    unfold update_merkle_root is_valid_merkle_root in rw (e, e, bytes_eq_refl root) refl
