-- ===== src/Tests/Base58Tests.antt =====
-- Addresses of toy hashes, with natural numbers in the place of OpenSSL's.
use coin_vault.Common.{
  Bytes, length, AllBytes, reverse-AllBytes, ℕ, zero, suc, ◌+◌, ◌*◌, ◌/◌, ◌%◌, ◌≤◌, ◌<◌, ◌≡◌, refl,
  sym, ap, ◌∙◌, inl, inr, none, some, [], ◌∷◌, reverse, reverse-reverse, arith, ◌==◌, if◌then◌else◌,
  Bool-cases, ==-true, fault, ok,
}
use coin_vault.Base58.Numbers.{Bignum, number, EndsNonzero}
use coin_vault.Base58.{
  to_base58_check, from_base58_check, is_base58_check_valid, replicate, count_leading0s,
  set_in_base, decode, split_checksum,
}
use coin_vault.Base58.Alphabet.{bitcoin_base58_chars, bitcoin_base58_chars-IsAlphabet}
use coin_vault.Base58.RoundTrip.{IsDigest, from_base58_check-to_base58_check}
use coin_vault.Base58.Short.{short-fault}

-- The bytes of a number, the least one first; the fuel is the number.
unfoldable bytes_of : ℕ → ℕ → Bytes
bytes_of zero n = []
bytes_of (suc fuel) n =
    let rest = bytes_of fuel (n / 256) in if n == 0 then [] else (n % 256) ∷ rest

number-bytes_of : (fuel n : ℕ) → n ≤ fuel → number (bytes_of fuel n) ≡ n
unfolding bytes_of number
number-bytes_of zero n h = omega arith
number-bytes_of (suc fuel) n h = elim (Bool-cases (n == 0)) [
  | inl e ↦ rw e (sym (==-true n 0 e))
  | inr e ↦
      let pos : 0 < n = ground arith in
      rw e (omega (arith, number-bytes_of fuel (n / 256) (omega arith)))
]

bytes_of-AllBytes : (fuel n : ℕ) → AllBytes (bytes_of fuel n)
unfolding bytes_of
bytes_of-AllBytes zero n = tt
bytes_of-AllBytes (suc fuel) n = elim (Bool-cases (n == 0)) [
  | inl e ↦ rw e tt
  | inr e ↦ rw e (omega arith, bytes_of-AllBytes fuel (n / 256))
]

cons-EndsNonzero :
    (b : ℕ) (bs : Bytes) → EndsNonzero bs → (number bs ≡ 0 → 0 < b) → EndsNonzero (b ∷ bs)
unfolding number
cons-EndsNonzero b [] h first = first refl
cons-EndsNonzero b (c ∷ bs) h first = h

bytes_of-EndsNonzero : (fuel n : ℕ) → n ≤ fuel → EndsNonzero (bytes_of fuel n)
unfolding bytes_of
bytes_of-EndsNonzero zero n h = tt
bytes_of-EndsNonzero (suc fuel) n h = elim (Bool-cases (n == 0)) [
  | inl e ↦ rw e tt
  | inr e ↦
      let pos : 0 < n = ground arith in
      rw e (
        cons-EndsNonzero (n % 256) (bytes_of fuel (n / 256))
          (bytes_of-EndsNonzero fuel (n / 256) (omega arith))
          (λ none_left. omega (arith, number-bytes_of fuel (n / 256) (omega arith))))
]

reverse_twice : (n : ℕ) → reverse (reverse (bytes_of n n)) ≡ bytes_of n n
reverse_twice n = reverse-reverse (bytes_of n n)

abbrev natural : Bignum
unfolding bytes_of number
natural = record {
  Bn = ℕ;
  value = λ n. n;
  set_word = λ w. w;
  from_bin = λ bytes. number (reverse bytes);
  to_bin = λ n. reverse (bytes_of n n);
  mul_word = λ n w. n * w;
  add_word = λ n w. n + w;
  div_word = λ n w. n / w;
  mod_word = λ n w. n % w;
  is_zero = λ n. n == 0;
  value-set_word = λ w h. refl;
  value-from_bin = λ bytes all. refl;
  number-to_bin = λ n. ap number (reverse_twice n) ∙ number-bytes_of n n (omega arith);
  to_bin-AllBytes = λ n. reverse-AllBytes (bytes_of n n) (bytes_of-AllBytes n n);
  to_bin-EndsNonzero = λ n. rw (reverse_twice n) (bytes_of-EndsNonzero n n (omega arith));
  value-mul_word = λ n w h. refl;
  value-add_word = λ n w h. refl;
  value-div_word = λ n w pos h. refl;
  mod_word_lem = λ n w pos h. refl;
  is_zero_lem = λ n. refl;
}

-- A hash of 32 bytes.
abbrev toy_hash : Bytes → Bytes
unfolding replicate
toy_hash bytes = replicate 32 (length bytes % 256)

length-replicate : (n c : ℕ) → length (replicate n c) ≡ n
unfolding replicate
length-replicate zero c = refl
length-replicate (suc n) c = ap suc (length-replicate n c)

replicate-AllBytes : (n c : ℕ) → c < 256 → AllBytes (replicate n c)
unfolding replicate
replicate-AllBytes zero c h = tt
replicate-AllBytes (suc n) c h = (h, replicate-AllBytes n c h)

toy_hash-IsDigest : IsDigest toy_hash
unfolding replicate
toy_hash-IsDigest bytes = (
  length-replicate 32 (length bytes % 256),
  replicate-AllBytes 32 (length bytes % 256) (omega arith),
)

-- "111" for the version and two zeros, and what follows.
abbrev payload : Bytes
payload = 0 ∷ 0 ∷ 0x10 ∷ 0xff ∷ []

abbrev text : Bytes
text = b'1' ∷ b'1' ∷ b'1' ∷ b'9' ∷ b'T' ∷ b't' ∷ b'Y' ∷ b'E' ∷ b'A' ∷ b'2' ∷ b'p' ∷ []

address : to_base58_check natural toy_hash bitcoin_base58_chars payload 0 ≡ ok text
unfolding to_base58_check natural
address = refl

read_back : from_base58_check natural toy_hash bitcoin_base58_chars text ≡ ok (some (payload, 0))
unfolding from_base58_check decode set_in_base split_checksum natural
read_back = refl

from_base58_check-to_base58_check_example :
    (s : Bytes) × (to_base58_check natural toy_hash bitcoin_base58_chars payload 0 ≡ ok s)
    × (from_base58_check natural toy_hash bitcoin_base58_chars s ≡ ok (some (payload, 0)))
unfolding count_leading0s
from_base58_check-to_base58_check_example =
    from_base58_check-to_base58_check natural toy_hash bitcoin_base58_chars
      bitcoin_base58_chars-IsAlphabet toy_hash-IsDigest payload 0 (omega arith) (omega arith)

-- "1a2b"
abbrev short_text : Bytes
short_text = b'1' ∷ b'a' ∷ b'2' ∷ b'b' ∷ []

short-fault_example :
    (is_base58_check_valid natural toy_hash bitcoin_base58_chars short_text ≡ fault)
    × (from_base58_check natural toy_hash bitcoin_base58_chars short_text ≡ ok none)
short-fault_example =
    short-fault natural toy_hash bitcoin_base58_chars short_text bitcoin_base58_chars-IsAlphabet
      (omega arith)
