-- ===== src/Wire/BlockHeader.antt =====
-- class CoinBlockHeader of CoinNodeData.h and CoinNodeData.cpp: the 80 bytes of a block header.
use coin_vault.Common.{
  Bytes, length, length-append, length-reverse, drop-append, drop-length, drop_field, slice_field,
  slice_enough, drop, slice, big_endian, length-uint_to_vch, vch_to_uint-uint_to_vch,
  read_uint_enough, vch_to_uint_enough, read_uint_field, drop_uint_field, uint_to_vch, vch_to_uint,
  read_uint, ℕ, ◌+◌, ◌^◌, ◌≤◌, ◌<◌, ◌≡◌, refl, ap, ◌∙◌, [], ◌++◌, reverse, append_assoc,
  reverse-reverse, arith, ltb, ltb-false, Result, ◌>>=◌, ◌>>◌, throw_if, too_small, ok,
}
use coin_vault.Wire.Codec.{Codec}

pub record BlockHeader : Type 0 where
  pub version : ℕ
  pub prev_block_hash : Bytes
  pub merkle_root : Bytes
  pub timestamp : ℕ
  pub bits : ℕ
  pub nonce : ℕ

abbrev pub min_size : ℕ
min_size = 80

unfoldable pub get_size : BlockHeader → ℕ
get_size h = 80

unfoldable pub get_serialized : BlockHeader → Bytes
get_serialized h =
    uint_to_vch 4 h.version big_endian
    ++ (reverse h.prev_block_hash
        ++ (reverse h.merkle_root
            ++ (uint_to_vch 4 h.timestamp big_endian
                ++ (uint_to_vch 4 h.bits big_endian ++ uint_to_vch 4 h.nonce big_endian))))

unfoldable pub set_serialized : Bytes → Result BlockHeader
set_serialized bytes = do
  throw_if (ltb (length bytes) min_size) too_small
  version ← vch_to_uint 4 bytes big_endian
  prev ← slice bytes 4 32
  root ← slice bytes 36 32
  timestamp ← read_uint bytes 68 4 big_endian
  bits ← read_uint bytes 72 4 big_endian
  nonce ← read_uint bytes 76 4 big_endian
  ok (record {
    version = version;
    prev_block_hash = reverse prev;
    merkle_root = reverse root;
    timestamp = timestamp;
    bits = bits;
    nonce = nonce;
  })

-- The hashes have 32 bytes and the numbers are uint32s.
pub record IsValid (h : BlockHeader) : Type 0 where
  pub version_range : h.version < 2 ^ 32
  pub prev_size : length h.prev_block_hash ≡ 32
  pub root_size : length h.merkle_root ≡ 32
  pub timestamp_range : h.timestamp < 2 ^ 32
  pub bits_range : h.bits < 2 ^ 32
  pub nonce_range : h.nonce < 2 ^ 32

module _ (h : BlockHeader) (rest : Bytes) where
  abbrev from_nonce : Bytes
  from_nonce = uint_to_vch 4 h.nonce big_endian ++ rest

  abbrev from_bits : Bytes
  from_bits = uint_to_vch 4 h.bits big_endian ++ from_nonce

  abbrev from_timestamp : Bytes
  from_timestamp = uint_to_vch 4 h.timestamp big_endian ++ from_bits

  abbrev from_root : Bytes
  from_root = reverse h.merkle_root ++ from_timestamp

  abbrev from_prev : Bytes
  from_prev = reverse h.prev_block_hash ++ from_root

  abbrev whole : Bytes
  whole = uint_to_vch 4 h.version big_endian ++ from_prev

  serialized_whole : get_serialized h ++ rest ≡ whole
  unfolding get_serialized
  serialized_whole = simp append_assoc

  module _ (v : IsValid h) where
    reverse_size : (hash : Bytes) → length hash ≡ 32 → length (reverse hash) ≡ 32
    reverse_size hash e = length-reverse hash ∙ e

    prev_cursor : drop 4 whole ≡ ok from_prev
    prev_cursor = drop-append 4 _ from_prev (length-uint_to_vch 4 h.version big_endian)

    root_cursor : drop 36 whole ≡ ok from_root
    root_cursor = drop_field 4 32 whole _ from_root prev_cursor (reverse_size _ v.prev_size)

    timestamp_cursor : drop 68 whole ≡ ok from_timestamp
    timestamp_cursor =
        drop_field 36 32 whole _ from_timestamp root_cursor (reverse_size _ v.root_size)

    bits_cursor : drop 72 whole ≡ ok from_bits
    bits_cursor = drop_uint_field 68 4 h.timestamp big_endian whole from_bits timestamp_cursor

    nonce_cursor : drop 76 whole ≡ ok from_nonce
    nonce_cursor = drop_uint_field 72 4 h.bits big_endian whole from_nonce bits_cursor

    total : length whole ≡ 80 + length rest
    total = omega (
      arith,
      drop-length 76 whole nonce_cursor,
      length-append (uint_to_vch 4 h.nonce big_endian) rest,
      length-uint_to_vch 4 h.nonce big_endian,
    )

    set_serialized_whole : set_serialized whole ≡ ok h
    set_serialized_whole =
        unfold set_serialized in
        rw
          (
            ltb-false (length whole) min_size (omega (arith, total)),
            vch_to_uint-uint_to_vch 3 h.version big_endian from_prev v.version_range,
            slice_field 4 32 whole _ from_root prev_cursor (reverse_size _ v.prev_size),
            slice_field 36 32 whole _ from_timestamp root_cursor (reverse_size _ v.root_size),
            read_uint_field 68 3 h.timestamp big_endian whole from_bits timestamp_cursor
                v.timestamp_range,
            read_uint_field 72 3 h.bits big_endian whole from_nonce bits_cursor v.bits_range,
            read_uint_field 76 3 h.nonce big_endian whole rest nonce_cursor v.nonce_range,
            reverse-reverse h.prev_block_hash,
            reverse-reverse h.merkle_root,
          )
          refl

-- For a header whose numbers are below 2^32 and whose two hashes have 32 bytes, setSerialized
-- reads the header back from what getSerialized wrote, whatever bytes follow it.
pub block_header_round_trip :
    (h : BlockHeader) (rest : Bytes) → IsValid h → set_serialized (get_serialized h ++ rest) ≡ ok h
block_header_round_trip h rest v = rw (serialized_whole h rest) (set_serialized_whole h rest v)

pub length-block_header : (h : BlockHeader) → IsValid h → length (get_serialized h) ≡ get_size h
unfolding get_size
length-block_header h v =
    omega
      (arith, ap length (serialized_whole h []), length-append (get_serialized h) [], total h [] v)

-- setSerialized of a block header accepts every vector of at least 80 bytes and returns a header.
pub block_header_total :
    (bytes : Bytes) → 80 ≤ length bytes → (h : BlockHeader) × (set_serialized bytes ≡ ok h)
unfolding set_serialized
block_header_total bytes long =
    let (version, e0) = vch_to_uint_enough bytes 4 big_endian (omega arith) in
    let (prev, e1, _) = slice_enough bytes 4 32 (omega arith) in
    let (root, e2, _) = slice_enough bytes 36 32 (omega arith) in
    let (timestamp, e3) = read_uint_enough bytes 68 4 big_endian (omega arith) in
    let (bits, e4) = read_uint_enough bytes 72 4 big_endian (omega arith) in
    let (nonce, e5) = read_uint_enough bytes 76 4 big_endian (omega arith) in
    let enough = ltb-false (length bytes) min_size long in
    (
      record {
        version = version;
        prev_block_hash = reverse prev;
        merkle_root = reverse root;
        timestamp = timestamp;
        bits = bits;
        nonce = nonce;
      },
      rw (enough, e0, e1, e2, e3, e4, e5) refl,
    )

unfoldable pub block_header_codec : Codec BlockHeader
block_header_codec = record {
  get_size = get_size;
  get_serialized = get_serialized;
  set_serialized = set_serialized;
  IsValid = IsValid;
  length_law = length-block_header;
  round_trip = block_header_round_trip;
}
