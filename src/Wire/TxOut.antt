-- ===== src/Wire/TxOut.antt =====
-- class TxOut of CoinNodeData.h and CoinNodeData.cpp.
use coin_vault.Common.{
  Bytes, length, length-append, drop-append, slice_field, slice_short, seek, u64, mod-le, drop,
  slice, big_endian, length-uint_to_vch, vch_to_uint-uint_to_vch, uint_to_vch, vch_to_uint, ℕ, ◌+◌,
  ◌^◌, ◌≤◌, ◌<◌, ◌≡◌, refl, false, ◌++◌, append_assoc, arith, ltb, ltb-false, Result, ◌>>=◌, ◌>>◌,
  throw_if, too_small, wrong_length, ok, fault,
}
use coin_vault.Wire.VarInt
use coin_vault.Wire.Codec.{Codec}
use coin_vault.Wire.VarInt.{get_size_bounds}

pub record TxOut : Type 0 where
  pub value : ℕ
  pub script_pub_key : Bytes

abbrev pub min_size : ℕ
min_size = 9

unfoldable pub get_size : TxOut → ℕ
get_size t = VarInt.get_size (length t.script_pub_key) + length t.script_pub_key + 8

unfoldable pub get_serialized : TxOut → Bytes
get_serialized t =
    uint_to_vch 8 t.value big_endian
    ++ (VarInt.get_serialized (length t.script_pub_key) ++ t.script_pub_key)

-- The test on the length is made in `uint64_t`.
unfoldable pub set_serialized : Bytes → Result TxOut
set_serialized bytes = do
  throw_if (ltb (length bytes) min_size) too_small
  value ← vch_to_uint 8 bytes big_endian
  field ← drop 8 bytes
  script_length ← VarInt.set_serialized field
  let pos = VarInt.get_size script_length + 8
  throw_if (ltb (length bytes) (u64 (pos + script_length))) wrong_length
  script ← slice bytes pos script_length
  ok (record { value = value; script_pub_key = script })

-- `value` is a uint64, and so is the size of the script.
pub record IsValid (t : TxOut) : Type 0 where
  pub value_range : t.value < 2 ^ 64
  pub script_range : length t.script_pub_key < 2 ^ 64

pub length-tx_out : (t : TxOut) → IsValid t → length (get_serialized t) ≡ get_size t
unfolding get_serialized get_size
length-tx_out t v = omega (
  arith,
  length-append (uint_to_vch 8 t.value big_endian)
      (VarInt.get_serialized (length t.script_pub_key) ++ t.script_pub_key),
  length-append (VarInt.get_serialized (length t.script_pub_key)) t.script_pub_key,
  length-uint_to_vch 8 t.value big_endian,
  VarInt.length-varint (length t.script_pub_key),
)

-- For an output whose value and script length are below 2^64, setSerialized reads the output back
-- from what getSerialized wrote, whatever bytes follow it.
pub tx_out_round_trip :
    (t : TxOut) (rest : Bytes) → IsValid t → set_serialized (get_serialized t ++ rest) ≡ ok t
unfolding get_serialized
tx_out_round_trip t rest v =
    rw (append_assoc, append_assoc)
      (unfold set_serialized in rw (enough, value, second, script_length, fits, script) refl)
  where
    n : ℕ
    n = length t.script_pub_key

    value_bytes : Bytes
    value_bytes = uint_to_vch 8 t.value big_endian

    length_bytes : Bytes
    length_bytes = VarInt.get_serialized n

    tail : Bytes
    tail = length_bytes ++ (t.script_pub_key ++ rest)

    bs : Bytes
    bs = value_bytes ++ tail

    value_size : length value_bytes ≡ 8
    value_size = length-uint_to_vch 8 t.value big_endian

    total : length bs ≡ 8 + VarInt.get_size n + n + length rest
    total = omega (
      arith,
      length-append value_bytes tail,
      length-append length_bytes (t.script_pub_key ++ rest),
      length-append t.script_pub_key rest,
      value_size,
      VarInt.length-varint n,
    )

    enough : ltb (length bs) min_size ≡ false
    enough = ltb-false _ _ (omega (arith, total, get_size_bounds n))

    value : vch_to_uint 8 bs big_endian ≡ ok t.value
    value = vch_to_uint-uint_to_vch 7 t.value big_endian tail v.value_range

    second : drop 8 bs ≡ ok tail
    second = drop-append 8 value_bytes tail value_size

    script_length : VarInt.set_serialized tail ≡ ok n
    script_length = VarInt.varint_round_trip n (t.script_pub_key ++ rest) v.script_range

    third : drop (VarInt.get_size n + 8) bs ≡ ok (t.script_pub_key ++ rest)
    third =
        seek 8 _ bs length_bytes (t.script_pub_key ++ rest) second
          (omega (arith, VarInt.length-varint n))

    fits : ltb (length bs) (u64 (VarInt.get_size n + 8 + n)) ≡ false
    fits = ltb-false _ _ (omega (arith, total, mod-le (VarInt.get_size n + 8 + n) (2 ^ 64)))

    script : slice bs (VarInt.get_size n + 8) n ≡ ok t.script_pub_key
    script = slice_field _ n bs t.script_pub_key rest third refl

unfoldable pub tx_out_codec : Codec TxOut
tx_out_codec = record {
  get_size = get_size;
  get_serialized = get_serialized;
  set_serialized = set_serialized;
  IsValid = IsValid;
  length_law = length-tx_out;
  round_trip = tx_out_round_trip;
}

-- When an output states a script length n with n + 17 at least 2^64 and fewer than n bytes follow,
-- the 64-bit sum in the length test of setSerialized wraps, the test passes and the copy of the
-- script leaves the vector.
pub tx_out_wrap :
    (value n : ℕ) (rest : Bytes)
    → value < 2 ^ 64
    → n < 2 ^ 64
    → 2 ^ 64 ≤ n + 17
    → length rest < n
    → set_serialized (uint_to_vch 8 value big_endian ++ (VarInt.get_serialized n ++ rest)) ≡ fault
tx_out_wrap value n rest hv hn wraps short =
    unfold set_serialized in
    rw
      (
        ltb-false (length bs) min_size (omega (arith, total, get_size_bounds n)),
        vch_to_uint-uint_to_vch 7 value big_endian tail hv,
        drop-append 8 (uint_to_vch 8 value big_endian) tail value_size,
        VarInt.varint_round_trip n rest hn,
        ltb-false (length bs) (u64 (VarInt.get_size n + 8 + n)) fits,
        slice_short bs (VarInt.get_size n + 8) n (omega (arith, total)),
      )
      refl
  where
    tail : Bytes
    tail = VarInt.get_serialized n ++ rest

    bs : Bytes
    bs = uint_to_vch 8 value big_endian ++ tail

    value_size : length (uint_to_vch 8 value big_endian) ≡ 8
    value_size = length-uint_to_vch 8 value big_endian

    total : length bs ≡ 8 + VarInt.get_size n + length rest
    total = omega (
      arith,
      length-append (uint_to_vch 8 value big_endian) tail,
      length-append (VarInt.get_serialized n) rest,
      value_size,
      VarInt.length-varint n,
    )

    fits : u64 (VarInt.get_size n + 8 + n) ≤ length bs
    fits = omega (arith, total, VarInt.get_size_large n)
