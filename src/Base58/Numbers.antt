-- ===== src/Base58/Numbers.antt =====
-- What class BigInt of CoinCore/src/BigInt.h uses of OpenSSL's big numbers, with their documented
-- values.
use coin_vault.Common.{
  Bytes, AllBytes, ℕ, ◌+◌, ◌*◌, ◌/◌, ◌%◌, ◌^◌, ◌<◌, ◌≡◌, Bool, [], ◌∷◌, reverse, ◌==◌,
}

-- The number of a list of bytes, the least one first.
unfoldable pub number : Bytes → ℕ
number [] = 0
number (b ∷ bs) = b + 256 * number bs

-- The largest byte is not 0.
abbrev pub EndsNonzero : Bytes → Type 0
EndsNonzero [] = Unit {0}
EndsNonzero (b ∷ []) = 0 < b
EndsNonzero (b ∷ c ∷ bs) = EndsNonzero (c ∷ bs)

pub record Bignum : Type 1 where
  pub Bn : Type 0
  pub value : Bn → ℕ
  pub set_word : ℕ → Bn
  pub from_bin : Bytes → Bn
  pub to_bin : Bn → Bytes
  pub mul_word : Bn → ℕ → Bn
  pub add_word : Bn → ℕ → Bn
  pub div_word : Bn → ℕ → Bn
  pub mod_word : Bn → ℕ → ℕ
  pub is_zero : Bn → Bool
  pub value-set_word : (w : ℕ) → w < 2 ^ 64 → value (set_word w) ≡ w
  -- Bytes are read and written with the largest one first, and none too many is written.
  pub value-from_bin :
      (bytes : Bytes) → AllBytes bytes → value (from_bin bytes) ≡ number (reverse bytes)
  pub number-to_bin : (n : Bn) → number (reverse (to_bin n)) ≡ value n
  pub to_bin-AllBytes : (n : Bn) → AllBytes (to_bin n)
  pub to_bin-EndsNonzero : (n : Bn) → EndsNonzero (reverse (to_bin n))
  pub value-mul_word : (n : Bn) (w : ℕ) → w < 2 ^ 64 → value (mul_word n w) ≡ value n * w
  pub value-add_word : (n : Bn) (w : ℕ) → w < 2 ^ 64 → value (add_word n w) ≡ value n + w
  pub value-div_word : (n : Bn) (w : ℕ) → 0 < w → w < 2 ^ 64 → value (div_word n w) ≡ value n / w
  pub mod_word_lem : (n : Bn) (w : ℕ) → 0 < w → w < 2 ^ 64 → mod_word n w ≡ value n % w
  pub is_zero_lem : (n : Bn) → is_zero n ≡ (value n == 0)
