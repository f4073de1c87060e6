-- ===== src/Base58/Short.antt =====
-- isBase58CheckValid of CoinCore/src/Base58Check.h on short strings.
use coin_vault.Common.{
  Bytes, length, length-reverse, take_short, le_cases, ℕ, zero, suc, ◌+◌, ◌*◌, ◌^◌, ◌≤◌, ◌<◌, ◌≡◌,
  refl, inl, inr, Option, none, some, [], ◌∷◌, reverse, arith, ltb-true, fault, ok,
}
use coin_vault.Base58.Numbers.{Bignum, number, EndsNonzero}
use coin_vault.Base58.{
  strchr, take_last, set_in_base, split_checksum, decode, from_base58_check, is_base58_check_valid,
}
use coin_vault.Base58.Alphabet.{IsAlphabet}
use coin_vault.Base58.Digits.{read, add_digit, strchr-le, set_in_base_lem}

-- The largest number that so many more characters can make.
abbrev grow : ℕ → ℕ → ℕ
grow zero n = n
grow (suc k) n = grow k (n * 58 + 58)

grow_four : (k : ℕ) → k ≤ 4 → grow k 0 < 2 ^ 24
grow_four zero h = omega arith
grow_four (suc zero) h = omega arith
grow_four (suc (suc zero)) h = omega arith
grow_four (suc (suc (suc zero))) h = omega arith
grow_four (suc (suc (suc (suc zero)))) h = omega arith
grow_four (suc (suc (suc (suc (suc k))))) h = absurd (omega arith)

add_digit-le :
    (n bound : ℕ) (o : Option ℕ)
    → n ≤ bound
    → ((p : ℕ) → o ≡ some p → p ≤ 58)
    → add_digit n o ≤ bound * 58 + 58
unfolding add_digit
add_digit-le n bound none h low = omega arith
add_digit-le n bound (some p) h low = omega (arith, low p refl)

read-le :
    (chars s : Bytes) (n bound : ℕ)
    → length chars ≡ 58
    → n ≤ bound
    → read chars s n ≤ grow (length s) bound
unfolding read
read-le chars [] n bound size h = h
read-le chars (c ∷ s) n bound size h =
    read-le chars s (add_digit n (strchr chars c)) (bound * 58 + 58) size
      (add_digit-le n bound (strchr chars c) h (λ p e. omega (arith, strchr-le chars c p e)))

-- A number of at least 4 bytes without a leading 0.
number-le : (bs : Bytes) → EndsNonzero bs → 4 ≤ length bs → 2 ^ 24 ≤ number bs
unfolding number
number-le [] ends h = absurd (omega arith)
number-le (a ∷ []) ends h = absurd (omega arith)
number-le (a ∷ b ∷ []) ends h = absurd (omega arith)
number-le (a ∷ b ∷ c ∷ []) ends h = absurd (omega arith)
number-le (a ∷ b ∷ c ∷ d ∷ []) ends h = omega arith
number-le (a ∷ b ∷ c ∷ d ∷ e ∷ rest) ends h =
    omega (arith, number_positive (d ∷ e ∷ rest) ends (omega arith))
  where
    number_positive : (bs : Bytes) → EndsNonzero bs → 0 < length bs → 0 < number bs
    number_positive [] ends h = absurd (omega arith)
    number_positive (b ∷ []) ends h = omega arith
    number_positive (b ∷ c ∷ bs) ends h = omega (arith, number_positive (c ∷ bs) ends (omega arith))

module _ (bignum : Bignum) (sha256_2 : Bytes → Bytes) (chars : Bytes) where
  open bignum use {value, to_bin}

  few_bytes :
      (s : Bytes)
      → IsAlphabet chars
      → length s ≤ 4
      → length (to_bin (set_in_base bignum 58 chars s)) < 4
  few_bytes s alphabet short =
      let n = set_in_base bignum 58 chars s in
      let small : value n < 2 ^ 24 = omega (
        arith,
        set_in_base_lem bignum chars alphabet s,
        read-le chars s 0 0 alphabet.0 (omega arith),
        grow_four (length s) short,
      ) in
      elim (le_cases 4 (length (to_bin n))) [
        | inr low ↦ low
        | inl high ↦ absurd (
            omega (
              arith,
              small,
              bignum.number-to_bin n,
              number-le (reverse (to_bin n)) (bignum.to_bin-EndsNonzero n)
                  (omega (arith, high, length-reverse (to_bin n))),
            ))
      ]

  -- For every string of at most 4 characters, an alphabet of 58 different characters and big
  -- numbers with their documented values: the number of the string has less than 4 bytes, so that
  -- fromBase58Check returns false, while isBase58CheckValid, which has no test of the length,
  -- reads in front of the vector, whatever the hash.
  pub short-fault :
      (s : Bytes)
      → IsAlphabet chars
      → length s ≤ 4
      → (is_base58_check_valid bignum sha256_2 chars s ≡ fault)
        × (from_base58_check bignum sha256_2 chars s ≡ ok none)
  unfolding is_base58_check_valid from_base58_check decode split_checksum take_last
  short-fault s alphabet short =
      let bytes = to_bin (set_in_base bignum 58 chars s) in
      let few = few_bytes s alphabet short in
      (
        rw (take_short 4 (reverse bytes) (omega (arith, few, length-reverse bytes))) refl,
        rw (ltb-true (length bytes) 4 few) refl,
      )
