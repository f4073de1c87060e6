-- ===== src/Wire/OutPoint.antt =====
-- class OutPoint of CoinNodeData.h and CoinNodeData.cpp.
use coin_vault.Common.{
  Bytes, length, length-append, length-reverse, drop-append, slice_field, drop_zero, slice,
  big_endian, length-uint_to_vch, read_uint_field, uint_to_vch, read_uint, ℕ, ◌^◌, ◌<◌, ◌≡◌, refl,
  false, ◌++◌, reverse, append_assoc, reverse-reverse, arith, ltb, ltb-false, Result, ◌>>=◌, ◌>>◌,
  throw_if, too_small, ok,
}

pub record OutPoint : Type 0 where
  pub hash : Bytes
  pub index : ℕ

abbrev pub min_size : ℕ
min_size = 36

pub get_size : OutPoint → ℕ
get_size o = 36

unfoldable pub get_serialized : OutPoint → Bytes
get_serialized o = reverse o.hash ++ uint_to_vch 4 o.index big_endian

unfoldable pub set_serialized : Bytes → Result OutPoint
set_serialized bytes = do
  throw_if (ltb (length bytes) min_size) too_small
  hash_bytes ← slice bytes 0 32
  index ← read_uint bytes 32 4 big_endian
  ok (record { hash = reverse hash_bytes; index = index })

pub get_size_lem : (o : OutPoint) → get_size o ≡ 36
unfolding get_size
get_size_lem o = refl

-- `hash` is an array of 32 bytes and `index` a uint32.
pub record IsValid (o : OutPoint) : Type 0 where
  pub hash_size : length o.hash ≡ 32
  pub index_range : o.index < 2 ^ 32

pub length-out_point : (o : OutPoint) → IsValid o → length (get_serialized o) ≡ get_size o
unfolding get_serialized get_size
length-out_point o v = omega (
  arith,
  length-append (reverse o.hash) (uint_to_vch 4 o.index big_endian),
  length-reverse o.hash,
  length-uint_to_vch 4 o.index big_endian,
)

-- For an outpoint with a hash of 32 bytes and an index below 2^32, setSerialized reads the
-- outpoint back from what getSerialized wrote, whatever bytes follow it.
pub out_point_round_trip :
    (o : OutPoint) (rest : Bytes) → IsValid o → set_serialized (get_serialized o ++ rest) ≡ ok o
unfolding get_serialized
out_point_round_trip o rest v =
    rw append_assoc (unfold set_serialized in rw (enough, hash, index, reverse-reverse) refl)
  where
    index_bytes : Bytes
    index_bytes = uint_to_vch 4 o.index big_endian

    bs : Bytes
    bs = reverse o.hash ++ (index_bytes ++ rest)

    hash_size : length (reverse o.hash) ≡ 32
    hash_size = omega (arith, length-reverse o.hash, v.hash_size)

    enough : ltb (length bs) min_size ≡ false
    enough = ltb-false _ _ (
        omega (
          arith,
          length-append (reverse o.hash) (index_bytes ++ rest),
          length-append index_bytes rest,
          length-uint_to_vch 4 o.index big_endian,
          hash_size,
        ))

    hash : slice bs 0 32 ≡ ok (reverse o.hash)
    hash = slice_field 0 32 bs (reverse o.hash) (index_bytes ++ rest) (drop_zero bs) hash_size

    index : read_uint bs 32 4 big_endian ≡ ok o.index
    index =
        read_uint_field 32 3 o.index big_endian bs rest
          (drop-append 32 (reverse o.hash) (index_bytes ++ rest) hash_size) v.index_range
