-- ===== src/Wire/Locator/GetHeaders.antt =====
-- class GetHeadersMessage: the count of hashes is read from the first byte, which belongs to the
-- version.
use coin_vault.Common.{
  Bytes, length, drop_zero, u64, drop, slice, at, big_endian, uint_to_vch, vch_to_uint, ℕ, ◌+◌, ◌*◌,
  ◌%◌, ◌<◌, ◌≡◌, ◌≢◌, [], ◌∷◌, arith, ltb, Result, ◌>>=◌, throw_if, >>=-eq-ok, too_small,
  wrong_length, ok,
}
use coin_vault.Wire.VarInt
use coin_vault.Wire.Locator.{
  Locator, IsValid, min_size, get_serialized, get_serialized-written, written,
}
use coin_vault.Wire.Locator.{set_serialized_from, length-read_hashes, read_hashes}

unfoldable pub set_serialized : Bytes → Result Locator
unfolding set_serialized_from
set_serialized = set_serialized_from 0

-- A message that was read holds as many hashes as its first bytes say.
length-get_headers :
    (bytes : Bytes) (m : Locator) (count : ℕ)
    → VarInt.set_serialized bytes ≡ ok count
    → set_serialized bytes ≡ ok m
    → length m.block_locator_hashes ≡ count
unfolding set_serialized
length-get_headers bytes m count c h =
    let (_, _, h1) = >>=-eq-ok (throw_if (ltb (length bytes) min_size) too_small) _ h in
    let (version, _, h2) = >>=-eq-ok (vch_to_uint 4 bytes big_endian) _ h1 in
    let (field, first, h3) = >>=-eq-ok (drop 0 bytes) _ h2 in
    let (n, counted, h4) = >>=-eq-ok (VarInt.set_serialized field) _ h3 in
    let pos : ℕ = 4 + VarInt.get_size n in
    let (_, _, h5) =
      >>=-eq-ok (throw_if (ltb (length bytes) (u64 (pos + 32 * (n + 1)))) wrong_length) _ h4 in
    let (p, read, h6) = >>=-eq-ok (read_hashes n bytes pos) _ h5 in
    let (stop, _, h7) = >>=-eq-ok (slice bytes p.1 32) _ h6 in
    ground
      (arith, length-read_hashes n bytes pos p.0 p.1 read, h7, counted, c, first, drop_zero bytes)

first_byte : (b : ℕ) (bs : Bytes) → b < 0xfd → VarInt.set_serialized (b ∷ bs) ≡ ok b
unfolding VarInt.set_serialized at
first_byte b bs h = ground arith

-- For a valid GetHeadersMessage whose version has a low byte below 0xfd that is not the number of
-- its locator hashes, setSerialized does not read the message back from what getSerialized wrote.
pub get_headers-ne-written :
    (m : Locator)
    → IsValid m
    → m.version % 256 < 0xfd
    → length m.block_locator_hashes ≢ m.version % 256
    → (get_serialized m >>= set_serialized) ≢ ok m
unfolding uint_to_vch
get_headers-ne-written m v low other h =
    other (length-get_headers (written m []) m (m.version % 256) (first_byte _ _ low) read)
  where
    read : set_serialized (written m []) ≡ ok m
    read = rw (get_serialized-written m [] v) at h
