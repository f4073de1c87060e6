-- ===== src/Base58.antt =====
-- CoinCore/src/Base58Check.h, with the conversions of class BigInt of CoinCore/src/BigInt.h that it
-- calls. A string is the list of its characters.
use coin_vault.Common.{
  Bytes, length, drop, take, at, bytes_eq, ℕ, zero, suc, ◌+◌, ◌-◌, ◌*◌, Bool, not, Option, none,
  some, [], ◌∷◌, ◌++◌, reverse, ltb, ◌==◌, if◌then◌else◌, Result, ◌>>=◌, ◌>>◌, fault, stuck, ok,
}
pub mod Numbers
use coin_vault.Base58.Numbers.{Bignum}
pub mod Alphabet
pub mod Digits
pub mod RoundTrip
pub mod Short

abbrev pub further : Option ℕ → Option ℕ
further none = none
further (some p) = some (p + 1)

-- `strchr`, which also finds the 0 behind the last character.
unfoldable pub strchr : Bytes → ℕ → Option ℕ
strchr [] c = if c == 0 then some 0 else none
strchr (a ∷ rest) c = if a == c then some 0 else further (strchr rest c)

-- Both forms of `countLeading0s`, for the byte 0 and for a symbol.
unfoldable pub count_leading0s : ℕ → Bytes → ℕ
count_leading0s zero_symbol [] = 0
count_leading0s zero_symbol (c ∷ cs) =
    let rest = count_leading0s zero_symbol cs in if c == zero_symbol then suc rest else 0

-- `std::string(n, c)` and `uchar_vector(n, c)`
unfoldable pub replicate : ℕ → ℕ → Bytes
replicate zero c = []
replicate (suc n) c = c ∷ replicate n c

-- The range from `end() - n` to `end()`, whose iterators go back from the end.
unfoldable pub take_last : ℕ → Bytes → Result Bytes
unfolding take
take_last n xs = do last ← take n (reverse xs); ok (reverse last)

-- The range from `begin()` to `end() - n`.
unfoldable pub drop_last : ℕ → Bytes → Result Bytes
unfolding drop
drop_last n xs = do front ← drop n (reverse xs); ok (reverse front)

module _ (bignum : Bignum) where
  open bignum use {
    Bn, value, set_word, from_bin, to_bin, mul_word, add_word, div_word, mod_word, is_zero,
  }

  -- The loop of `getInBase`.
  unfoldable pub in_base_loop : ℕ → ℕ → Bytes → Bn → Bytes → Result Bytes
  unfolding at
  in_base_loop zero base alphabet num written = stuck
  in_base_loop (suc fuel) base alphabet num written = do
    c ← at alphabet (mod_word num base)
    let rest = in_base_loop fuel base alphabet (div_word num base) (c ∷ written)
    if is_zero (div_word num base) then ok (c ∷ written) else rest

  unfoldable pub get_in_base : ℕ → Bytes → Bn → Result Bytes
  unfolding in_base_loop
  get_in_base base alphabet num = in_base_loop (value num + 1) base alphabet num []

  -- A character that is not in the alphabet is skipped.
  unfoldable pub put_digit : ℕ → Bn → Option ℕ → Bn
  put_digit base num none = num
  put_digit base num (some p) = add_word (mul_word num base) p

  -- The loop of `setInBase`.
  unfoldable pub set_in_base_from : ℕ → Bytes → Bn → Bytes → Bn
  unfolding strchr put_digit
  set_in_base_from base alphabet num [] = num
  set_in_base_from base alphabet num (c ∷ cs) =
      set_in_base_from base alphabet (put_digit base num (strchr alphabet c)) cs

  unfoldable pub set_in_base : ℕ → Bytes → Bytes → Bn
  unfolding set_in_base_from
  set_in_base base alphabet in_base = set_in_base_from base alphabet (set_word 0) in_base

  module _ (sha256_2 : Bytes → Bytes) (chars : Bytes) where
    -- What both forms of `toBase58Check` do with the version and the payload.
    unfoldable pub encode : Bytes → Result Bytes
    unfolding get_in_base count_leading0s replicate take at
    encode bytes = do
      checksum ← take 4 (sha256_2 bytes)
      let checked = bytes ++ checksum
      base58check ← get_in_base 58 chars (from_bin checked)
      zero_symbol ← at chars 0
      ok (replicate (count_leading0s 0 checked) zero_symbol ++ base58check)

    unfoldable pub to_base58_check : Bytes → ℕ → Result Bytes
    unfolding encode
    to_base58_check payload version = encode (version ∷ payload)

    unfoldable pub to_base58_check_versions : Bytes → Bytes → Result Bytes
    unfolding encode
    to_base58_check_versions payload version = encode (version ++ payload)

    -- The parts of a string: the bytes in front of the checksum, with their leading zeros, and
    -- whether the checksum is right.
    unfoldable pub split_checksum : Bytes → Bytes → Result (Bytes × Bool)
    unfolding count_leading0s replicate take take_last drop_last at bytes_eq
    split_checksum base58check bytes = do
      checksum ← take_last 4 bytes
      front ← drop_last 4 bytes
      zero_symbol ← at chars 0
      let whole = replicate (count_leading0s zero_symbol base58check) 0 ++ front
      hash ← take 4 (sha256_2 whole)
      ok (whole, bytes_eq hash checksum)

    -- `false` is `none`.
    unfoldable pub decode : Bytes → Result (Option Bytes)
    decode base58check =
        let bytes = to_bin (set_in_base 58 chars base58check) in
        if ltb (length bytes) 4 then ok none else (do
          (whole, right) ← split_checksum base58check bytes
          ok (if right then some whole else none))

    -- `version = bytes[0]` and what is behind it; there need be no byte.
    unfoldable pub split_version : Option Bytes → Result (Option (Bytes × ℕ))
    split_version none = ok none
    split_version (some []) = fault
    split_version (some (version ∷ payload)) = ok (some (payload, version))

    unfoldable pub from_base58_check : Bytes → Result (Option (Bytes × ℕ))
    unfolding split_version
    from_base58_check base58check = do bytes ← decode base58check; split_version bytes

    -- There is no test of the length.
    unfoldable pub is_base58_check_valid : Bytes → Result Bool
    unfolding set_in_base split_checksum
    is_base58_check_valid base58check = do
      (whole, right) ← split_checksum base58check (to_bin (set_in_base 58 chars base58check))
      ok right
