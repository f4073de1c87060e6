-- ===== src/Wire/Locator/GetBlocks.antt =====
-- class GetBlocksMessage: the count of hashes is read behind the version.
use coin_vault.Common.{
  Bytes, length, slice_field, u64, mod-le, big_endian, vch_to_uint-uint_to_vch, ℕ, ◌+◌, ◌*◌, ◌^◌,
  ◌≤◌, ◌<◌, ◌≡◌, refl, ap, true, false, [], ◌++◌, reverse, reverse-reverse, arith, ltb, ltb-true,
  ltb-false, Result, ◌>>=◌, too_small, ok, err,
}
use coin_vault.Wire.VarInt
use coin_vault.Wire.VarInt.{get_size_bounds}
use coin_vault.Wire.Locator.{Locator, IsValid, min_size, get_serialized, read_hashes-joined}
use coin_vault.Wire.Locator.{
  set_serialized_from, written, whole, from_count, from_hashes, from_stop,
}
use coin_vault.Wire.Locator.{get_serialized-written, written-whole, count_cursor, hashes_cursor}
use coin_vault.Wire.Locator.{length-written, get_size_lem, stop_cursor, stop_size, total, bound}

unfoldable pub set_serialized : Bytes → Result Locator
unfolding set_serialized_from
set_serialized = set_serialized_from 4

module _ (m : Locator) (rest : Bytes) (v : IsValid m)
    (some_hash : 1 ≤ length m.block_locator_hashes) where
  n : ℕ
  n = length m.block_locator_hashes

  set_serialized_whole : set_serialized (whole m rest) ≡ ok m
  unfolding n
  set_serialized_whole =
      unfold set_serialized in
      rw
        (
          enough,
          vch_to_uint-uint_to_vch 3 m.version big_endian (from_count m rest) v.version_range,
          count_cursor m rest v,
          VarInt.varint_round_trip n (from_hashes m rest) fits,
          room,
          read_hashes-joined m.block_locator_hashes (whole m rest) (from_stop m rest) _
              v.hashes_valid (hashes_cursor m rest v) near,
          slice_field _ 32 (whole m rest) (reverse m.hash_stop) rest (stop_cursor m rest v)
              (stop_size m rest v),
          reverse-reverse m.hash_stop,
        )
        refl
    where
      enough : ltb (length (whole m rest)) min_size ≡ false
      enough = ltb-false _ _ (omega (arith, total m rest v, get_size_bounds n))

      fits : n < 2 ^ 64
      fits = omega (arith, bound m rest v)

      near : 4 + VarInt.get_size n + 32 * n < 2 ^ 32
      near = omega (arith, bound m rest v)

      room : ltb (length (whole m rest)) (u64 (4 + VarInt.get_size n + 32 * (n + 1))) ≡ false
      room =
          ltb-false _ _
            (omega (arith, total m rest v, mod-le (4 + VarInt.get_size n + 32 * (n + 1)) (2 ^ 64)))

-- For a valid GetBlocksMessage (version below 2^32, hashes of 32 bytes, less than 2^32 bytes
-- serialized) with at least one locator hash, getSerialized succeeds and setSerialized reads the
-- message back from what it wrote, whatever bytes follow it.
pub get_blocks_round_trip :
    (m : Locator) (rest : Bytes)
    → IsValid m
    → 1 ≤ length m.block_locator_hashes
    → (get_serialized m >>= λ bytes. set_serialized (bytes ++ rest)) ≡ ok m
get_blocks_round_trip m rest v some_hash =
    rw (get_serialized-written m rest v, written-whole m rest)
      (set_serialized_whole m rest v some_hash)

-- For a valid GetBlocksMessage without locator hashes, getSerialized succeeds and setSerialized
-- refuses what it wrote as too small.
pub get_blocks_no_hash :
    (m : Locator)
    → IsValid m
    → m.block_locator_hashes ≡ []
    → (get_serialized m >>= set_serialized) ≡ err too_small
get_blocks_no_hash m v none_given =
    rw (get_serialized-written m [] v) (unfold set_serialized set_serialized_from in rw short refl)
  where
    size : length (written m []) < min_size
    size = omega (
      arith,
      length-written m [] v,
      get_size_lem m,
      get_size_bounds (length m.block_locator_hashes),
      ap length none_given,
    )

    short : ltb (length (written m [])) min_size ≡ true
    short = ltb-true _ _ size
