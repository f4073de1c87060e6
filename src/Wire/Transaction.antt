-- ===== src/Wire/Transaction.antt =====
-- class Transaction of CoinNodeData.h and CoinNodeData.cpp.
use coin_vault.Common.{
  Bytes, length, u32, drop, big_endian, uint_to_vch, read_uint, ℕ, ◌+◌, ◌*◌, Bool, true, List, [],
  ◌∷◌, ◌++◌, ltb, Result, ◌>>=◌, ◌>>◌, throw_if, too_small, missing_field, ok,
}
use coin_vault.Wire.VarInt
use coin_vault.Wire.TxIn.{TxIn, tx_in_codec}
use coin_vault.Wire.TxIn
use coin_vault.Wire.TxOut.{TxOut, tx_out_codec}
use coin_vault.Wire.TxOut
use coin_vault.Wire.Codec.{append_items, sum_sizes, read_items}
pub mod RoundTrip
pub mod Scripts

pub record Transaction : Type 0 where
  pub version : ℕ
  pub inputs : List TxIn
  pub outputs : List TxOut
  pub lock_time : ℕ

abbrev pub min_size : ℕ
min_size = 10

unfoldable pub get_size : Transaction → ℕ
unfolding sum_sizes tx_in_codec tx_out_codec
get_size t =
    8
    + VarInt.get_size (length t.inputs)
    + VarInt.get_size (length t.outputs)
    + sum_sizes tx_in_codec t.inputs
    + sum_sizes tx_out_codec t.outputs

unfoldable pub append_inputs : Bool → List TxIn → Bytes
append_inputs include_length [] = []
append_inputs include_length (i ∷ is) =
    TxIn.get_serialized_with include_length i ++ append_inputs include_length is

unfoldable pub get_serialized_with : Bool → Transaction → Bytes
unfolding append_items tx_out_codec append_inputs
get_serialized_with include_length t =
    uint_to_vch 4 t.version big_endian
    ++ (VarInt.get_serialized (length t.inputs)
        ++ (append_inputs include_length t.inputs
            ++ (VarInt.get_serialized (length t.outputs)
                ++ (append_items tx_out_codec t.outputs ++ uint_to_vch 4 t.lock_time big_endian))))

unfoldable pub get_serialized : Transaction → Bytes
unfolding get_serialized_with
get_serialized = get_serialized_with true

-- `pos` is a `uint`. The counters of the loops are `uint64_t`, as is the count.
unfoldable pub set_serialized : Bytes → Result Transaction
unfolding read_items tx_in_codec tx_out_codec
set_serialized bytes = do
  throw_if (ltb (length bytes) min_size) too_small
  version ← read_uint bytes 0 4 big_endian
  behind_version ← drop 4 bytes
  in_count ← VarInt.set_serialized behind_version
  (inputs, in_end) ← read_items tx_in_codec in_count bytes (VarInt.get_size in_count + 4)
  behind_inputs ← drop in_end bytes
  out_count ← VarInt.set_serialized behind_inputs
  (outputs, pos) ←
      read_items tx_out_codec out_count bytes (u32 (in_end + VarInt.get_size out_count))
  throw_if (ltb (length bytes) (u32 (pos + 4))) missing_field
  lock_time ← read_uint bytes pos 4 big_endian
  ok (record { version = version; inputs = inputs; outputs = outputs; lock_time = lock_time })
