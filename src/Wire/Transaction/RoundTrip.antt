-- ===== src/Wire/Transaction/RoundTrip.antt =====
-- Reading back what `getSerialized` of class Transaction wrote.
use coin_vault.Common.{
  Bytes, length, length-append, drop-append, drop-length, drop_zero, seek, u32, mod-le, drop,
  big_endian, length-uint_to_vch, read_uint_field, uint_to_vch, read_uint, ℕ, ◌+◌, ◌^◌, ◌≤◌, ◌<◌,
  ◌≡◌, refl, ap, true, false, List, [], ◌∷◌, ◌++◌, append_assoc, arith, ltb, ltb-false, ok,
}
use coin_vault.Wire.VarInt
use coin_vault.Wire.VarInt.{get_size_bounds}
use coin_vault.Wire.TxIn.{TxIn, tx_in_codec}
use coin_vault.Wire.TxIn
use coin_vault.Wire.TxOut.{TxOut, tx_out_codec}
use coin_vault.Wire.TxOut
use coin_vault.Wire.Codec.{
  Codec, append_items, sum_sizes, AllValid, length-append_items, read_items-append_items,
}
use coin_vault.Wire.Transaction.{
  Transaction, min_size, get_size, get_serialized, append_inputs, set_serialized,
}

-- Every part is valid, the numbers are uint32s, and the whole is shorter than 2^32 bytes.
pub record IsValid (t : Transaction) : Type 0 where
  pub version_range : t.version < 2 ^ 32
  pub inputs_valid : AllValid tx_in_codec t.inputs
  pub outputs_valid : AllValid tx_out_codec t.outputs
  pub lock_time_range : t.lock_time < 2 ^ 32
  pub size_range : get_size t < 2 ^ 32

append_inputs-append_items : (is : List TxIn) → append_inputs true is ≡ append_items tx_in_codec is
unfolding append_inputs append_items tx_in_codec TxIn.get_serialized
append_inputs-append_items [] = refl
append_inputs-append_items (i ∷ is) =
    ap (λ r. TxIn.get_serialized i ++ r) (append_inputs-append_items is)

-- No transaction holds more inputs or outputs than bytes.
length-sum_sizes_in : (is : List TxIn) → length is ≤ sum_sizes tx_in_codec is
unfolding sum_sizes tx_in_codec TxIn.get_size
length-sum_sizes_in [] = omega arith
length-sum_sizes_in (i ∷ is) = omega (arith, length-sum_sizes_in is)

length-sum_sizes_out : (os : List TxOut) → length os ≤ sum_sizes tx_out_codec os
unfolding sum_sizes tx_out_codec TxOut.get_size
length-sum_sizes_out [] = omega arith
length-sum_sizes_out (o ∷ os) = omega (arith, length-sum_sizes_out os)

-- The fields one after the other, with `rest` behind them, and where they begin.
module _ (t : Transaction) (rest : Bytes) where
  abbrev ins : ℕ
  ins = length t.inputs

  abbrev outs : ℕ
  outs = length t.outputs

  abbrev from_lock_time : Bytes
  from_lock_time = uint_to_vch 4 t.lock_time big_endian ++ rest

  abbrev from_outputs : Bytes
  from_outputs = append_items tx_out_codec t.outputs ++ from_lock_time

  abbrev from_out_count : Bytes
  from_out_count = VarInt.get_serialized outs ++ from_outputs

  abbrev from_inputs : Bytes
  from_inputs = append_items tx_in_codec t.inputs ++ from_out_count

  abbrev from_in_count : Bytes
  from_in_count = VarInt.get_serialized ins ++ from_inputs

  abbrev whole : Bytes
  whole = uint_to_vch 4 t.version big_endian ++ from_in_count

  abbrev at_inputs : ℕ
  at_inputs = VarInt.get_size ins + 4

  abbrev at_out_count : ℕ
  at_out_count = at_inputs + sum_sizes tx_in_codec t.inputs

  abbrev at_outputs : ℕ
  at_outputs = at_out_count + VarInt.get_size outs

  abbrev at_lock_time : ℕ
  at_lock_time = at_outputs + sum_sizes tx_out_codec t.outputs

  serialized_whole : get_serialized t ++ rest ≡ whole
  unfolding get_serialized
  serialized_whole = rw append_inputs-append_items (simp append_assoc)

  end_size : get_size t ≡ at_lock_time + 4
  unfolding get_size
  end_size = omega arith

  module _ (v : IsValid t) where
    in_count_cursor : drop 4 whole ≡ ok from_in_count
    in_count_cursor = drop-append 4 _ from_in_count (length-uint_to_vch 4 t.version big_endian)

    inputs_cursor : drop at_inputs whole ≡ ok from_inputs
    inputs_cursor =
        seek 4 _ whole (VarInt.get_serialized ins) from_inputs in_count_cursor
          (omega (arith, VarInt.length-varint ins))

    out_count_cursor : drop at_out_count whole ≡ ok from_out_count
    out_count_cursor =
        seek at_inputs _ whole _ from_out_count inputs_cursor
          (omega (arith, length-append_items tx_in_codec t.inputs v.inputs_valid))

    outputs_cursor : drop at_outputs whole ≡ ok from_outputs
    outputs_cursor =
        seek at_out_count _ whole (VarInt.get_serialized outs) from_outputs out_count_cursor
          (omega (arith, VarInt.length-varint outs))

    lock_time_cursor : drop at_lock_time whole ≡ ok from_lock_time
    lock_time_cursor =
        seek at_outputs _ whole _ from_lock_time outputs_cursor
          (omega (arith, length-append_items tx_out_codec t.outputs v.outputs_valid))

    total : length whole ≡ at_lock_time + 4 + length rest
    total = omega (
      arith,
      drop-length at_lock_time whole lock_time_cursor,
      length-append (uint_to_vch 4 t.lock_time big_endian) rest,
      length-uint_to_vch 4 t.lock_time big_endian,
    )

    bound : at_lock_time + 4 < 2 ^ 32
    bound = omega (arith, end_size, v.size_range)

    ins_bound : at_inputs + sum_sizes tx_in_codec t.inputs < 2 ^ 32
    ins_bound = omega (arith, bound)

    ins_fit : ins < 2 ^ 64
    ins_fit = omega (arith, bound, length-sum_sizes_in t.inputs)

    outs_fit : outs < 2 ^ 64
    outs_fit = omega (arith, bound, length-sum_sizes_out t.outputs)

    long : min_size ≤ length whole
    long = omega (arith, total, get_size_bounds ins, get_size_bounds outs)

    room : u32 (at_lock_time + 4) ≤ length whole
    room = omega (arith, total, mod-le (at_lock_time + 4) (2 ^ 32))

    set_serialized_whole : set_serialized whole ≡ ok t
    set_serialized_whole =
        unfold set_serialized in
        rw
          (
            enough,
            version,
            in_count_cursor,
            VarInt.varint_round_trip ins from_inputs ins_fit,
            read_items-append_items tx_in_codec t.inputs whole from_out_count at_inputs
                v.inputs_valid inputs_cursor ins_bound,
            out_count_cursor,
            VarInt.varint_round_trip outs from_outputs outs_fit,
            wrap,
            read_items-append_items tx_out_codec t.outputs whole from_lock_time at_outputs
                v.outputs_valid outputs_cursor (omega (arith, bound)),
            complete,
            lock_time,
          )
          refl
      where
        enough : ltb (length whole) min_size ≡ false
        enough = ltb-false (length whole) min_size long

        complete : ltb (length whole) (u32 (at_lock_time + 4)) ≡ false
        complete = ltb-false (length whole) (u32 (at_lock_time + 4)) room

        version : read_uint whole 0 4 big_endian ≡ ok t.version
        version =
            read_uint_field 0 3 t.version big_endian whole from_in_count (drop_zero whole)
              v.version_range

        wrap : u32 (at_out_count + VarInt.get_size outs) ≡ at_outputs
        wrap = omega (arith, bound)

        lock_time : read_uint whole at_lock_time 4 big_endian ≡ ok t.lock_time
        lock_time =
            read_uint_field at_lock_time 3 t.lock_time big_endian whole rest lock_time_cursor
              v.lock_time_range

-- For a transaction whose numbers fit their types, whose hashes have 32 bytes and whose serialized
-- form is shorter than 2^32 bytes, setSerialized reads the transaction back from what
-- getSerialized wrote, whatever bytes follow it.
pub transaction_round_trip :
    (t : Transaction) (rest : Bytes) → IsValid t → set_serialized (get_serialized t ++ rest) ≡ ok t
transaction_round_trip t rest v = rw (serialized_whole t rest) (set_serialized_whole t rest v)

-- For a valid transaction (numbers that fit their types, hashes of 32 bytes, less than 2^32
-- bytes), getSerialized writes exactly getSize bytes.
pub length-transaction : (t : Transaction) → IsValid t → length (get_serialized t) ≡ get_size t
length-transaction t v = omega (
  arith,
  ap length (serialized_whole t []),
  length-append (get_serialized t) [],
  total t [] v,
  end_size t [],
)

unfoldable pub transaction_codec : Codec Transaction
transaction_codec = record {
  get_size = get_size;
  get_serialized = get_serialized;
  set_serialized = set_serialized;
  IsValid = IsValid;
  length_law = length-transaction;
  round_trip = transaction_round_trip;
}
