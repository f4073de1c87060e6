-- ===== src/Wire/Locator.antt =====
-- classes GetBlocksMessage and GetHeadersMessage of CoinNodeData.h and CoinNodeData.cpp, which have
-- the same fields and the same serialized form.
use coin_vault.Common.{
  Bytes, length, length-append, length-reverse, drop-append, take-append, drop-length, drop_field,
  slice_field, u32, u64, drop, take, slice, at, big_endian, length-uint_to_vch, uint_to_vch,
  vch_to_uint, ℕ, zero, suc, ◌+◌, ◌*◌, ◌^◌, ◌<◌, ◌≡◌, refl, ap, ◌∙◌, List, [], ◌∷◌, ◌++◌, reverse,
  append_assoc, append-nil, reverse-reverse, arith, ltb, Result, ◌>>=◌, ◌>>◌, throw_if, >>=-eq-ok,
  too_small, wrong_length, ok,
}
use coin_vault.Wire.VarInt
use native.Mathlib.Nat.{add-zero}
pub mod GetBlocks
pub mod GetHeaders

pub record Locator : Type 0 where
  pub version : ℕ
  pub block_locator_hashes : List Bytes
  pub hash_stop : Bytes

abbrev pub min_size : ℕ
min_size = 69

unfoldable pub get_size : Locator → ℕ
get_size m =
    VarInt.get_size (length m.block_locator_hashes) + 32 * length m.block_locator_hashes + 36

pub get_size_lem :
    (m : Locator)
    → get_size m
      ≡ VarInt.get_size (length m.block_locator_hashes) + 32 * length m.block_locator_hashes + 36
unfolding get_size
get_size_lem m = refl

-- Of each hash the first 32 bytes are written, in reverse.
unfoldable pub append_hashes : List Bytes → Result Bytes
append_hashes [] = ok []
append_hashes (hash ∷ hashes) = do
  front ← take 32 hash
  behind ← append_hashes hashes
  ok (reverse front ++ behind)

unfoldable pub get_serialized : Locator → Result Bytes
unfolding append_hashes
get_serialized m = do
  hashes ← append_hashes m.block_locator_hashes
  ok (
      uint_to_vch 4 m.version big_endian
      ++ (VarInt.get_serialized (length m.block_locator_hashes) ++ (hashes ++ reverse m.hash_stop)))

-- The loop over the hashes; `pos` is a `uint`.
unfoldable pub read_hashes : ℕ → Bytes → ℕ → Result (List Bytes × ℕ)
read_hashes zero bytes pos = ok ([], pos)
read_hashes (suc n) bytes pos = do
  hash ← slice bytes pos 32
  (hashes, end) ← read_hashes n bytes (u32 (pos + 32))
  ok (reverse hash ∷ hashes, end)

-- `setSerialized` with the place where the count of hashes is read. The test is in `uint64_t`.
unfoldable pub set_serialized_from : ℕ → Bytes → Result Locator
unfolding read_hashes
set_serialized_from start bytes = do
  throw_if (ltb (length bytes) min_size) too_small
  version ← vch_to_uint 4 bytes big_endian
  field ← drop start bytes
  count ← VarInt.set_serialized field
  let pos = 4 + VarInt.get_size count
  throw_if (ltb (length bytes) (u64 (pos + 32 * (count + 1)))) wrong_length
  (hashes, end) ← read_hashes count bytes pos
  stop ← slice bytes end 32
  ok (record { version = version; block_locator_hashes = hashes; hash_stop = reverse stop })

abbrev pub AllHashes : List Bytes → Type 0
AllHashes [] = Unit {0}
AllHashes (hash ∷ hashes) = (length hash ≡ 32) × AllHashes hashes

-- The hashes have 32 bytes, the version is a uint32, and the whole is shorter than 2^32 bytes.
pub record IsValid (m : Locator) : Type 0 where
  pub version_range : m.version < 2 ^ 32
  pub hashes_valid : AllHashes m.block_locator_hashes
  pub stop_size : length m.hash_stop ≡ 32
  pub size_range : get_size m < 2 ^ 32

-- The bytes of the hashes.
abbrev pub joined : List Bytes → Bytes
joined [] = []
joined (hash ∷ hashes) = reverse hash ++ joined hashes

append_hashes-joined :
    (hashes : List Bytes) → AllHashes hashes → append_hashes hashes ≡ ok (joined hashes)
unfolding append_hashes
append_hashes-joined [] v = refl
append_hashes-joined (hash ∷ hashes) v =
    let front = take-append 32 hash [] v.0 in
    rw (rw append-nil at front, append_hashes-joined hashes v.1) refl

pub length-joined :
    (hashes : List Bytes) → AllHashes hashes → length (joined hashes) ≡ 32 * length hashes
length-joined [] v = refl
length-joined (hash ∷ hashes) v = omega (
  arith,
  length-append (reverse hash) (joined hashes),
  length-reverse hash,
  v.0,
  length-joined hashes v.1,
)

read_hashes-joined :
    (hashes : List Bytes) (bs rest : Bytes) (pos : ℕ)
    → AllHashes hashes
    → drop pos bs ≡ ok (joined hashes ++ rest)
    → pos + 32 * length hashes < 2 ^ 32
    → read_hashes (length hashes) bs pos ≡ ok (hashes, pos + 32 * length hashes)
unfolding read_hashes
read_hashes-joined [] bs rest pos v h fits = rw add-zero refl
read_hashes-joined (hash ∷ hashes) bs rest pos v h fits =
    let here : drop pos bs ≡ ok (reverse hash ++ (joined hashes ++ rest)) = rw append_assoc at h in
    let size : length (reverse hash) ≡ 32 = length-reverse hash ∙ v.0 in
    let behind = drop_field pos 32 bs (reverse hash) (joined hashes ++ rest) here size in
    let wrap : u32 (pos + 32) ≡ pos + 32 = omega arith in
    let later = read_hashes-joined hashes bs rest (pos + 32) v.1 behind (omega arith) in
    let place : pos + 32 + 32 * length hashes ≡ pos + 32 * suc (length hashes) = omega arith in
    rw
      (
        slice_field pos 32 bs (reverse hash) (joined hashes ++ rest) here size,
        wrap,
        later,
        reverse-reverse hash,
        place,
      )
      refl

pub length-read_hashes :
    (n : ℕ) (bs : Bytes) (pos : ℕ) (hashes : List Bytes) (end : ℕ)
    → read_hashes n bs pos ≡ ok (hashes, end)
    → length hashes ≡ n
unfolding read_hashes
length-read_hashes zero bs pos hashes end h = ground arith
length-read_hashes (suc n) bs pos hashes end h =
    let (hash, _, tail) = >>=-eq-ok (slice bs pos 32) _ h in
    let (p, e, final) = >>=-eq-ok (read_hashes n bs (u32 (pos + 32))) _ tail in
    ground (arith, length-read_hashes n bs (u32 (pos + 32)) p.0 p.1 e, final)

-- The fields one after the other, with `rest` behind them.
module _ (m : Locator) (rest : Bytes) where
  abbrev pub count : ℕ
  count = length m.block_locator_hashes

  abbrev pub from_stop : Bytes
  from_stop = reverse m.hash_stop ++ rest

  abbrev pub from_hashes : Bytes
  from_hashes = joined m.block_locator_hashes ++ from_stop

  abbrev pub from_count : Bytes
  from_count = VarInt.get_serialized count ++ from_hashes

  abbrev pub whole : Bytes
  whole = uint_to_vch 4 m.version big_endian ++ from_count

  -- What `getSerialized` writes for a valid message.
  abbrev pub written : Bytes
  written =
      uint_to_vch 4 m.version big_endian
      ++ (VarInt.get_serialized count ++ (joined m.block_locator_hashes ++ reverse m.hash_stop))

  pub written-whole : written ++ rest ≡ whole
  written-whole = simp append_assoc

  module _ (v : IsValid m) where
    pub get_serialized-written : get_serialized m ≡ ok written
    unfolding get_serialized
    get_serialized-written = rw (append_hashes-joined m.block_locator_hashes v.hashes_valid) refl

    pub count_cursor : drop 4 whole ≡ ok from_count
    count_cursor = drop-append 4 _ from_count (length-uint_to_vch 4 m.version big_endian)

    pub hashes_cursor : drop (4 + VarInt.get_size count) whole ≡ ok from_hashes
    hashes_cursor = drop_field 4 _ whole _ from_hashes count_cursor (VarInt.length-varint count)

    pub stop_cursor : drop (4 + VarInt.get_size count + 32 * count) whole ≡ ok from_stop
    stop_cursor =
        drop_field _ (32 * count) whole _ from_stop hashes_cursor
          (length-joined m.block_locator_hashes v.hashes_valid)

    pub stop_size : length (reverse m.hash_stop) ≡ 32
    stop_size = length-reverse m.hash_stop ∙ v.stop_size

    pub total : length whole ≡ 36 + VarInt.get_size count + 32 * count + length rest
    total = omega (
      arith,
      drop-length (4 + VarInt.get_size count + 32 * count) whole stop_cursor,
      length-append (reverse m.hash_stop) rest,
      stop_size,
    )

    pub bound : 36 + VarInt.get_size count + 32 * count < 2 ^ 32
    unfolding get_size
    bound = omega (arith, v.size_range)

    -- `getSize` is the length of what `getSerialized` writes.
    pub length-written : length written ≡ get_size m
    unfolding get_size
    length-written = omega (arith, total, ap length written-whole, length-append written rest)
