-- ===== src/Bloom.antt =====
-- class BloomFilter of CoinCore/src/BloomFilter.h and BloomFilter.cpp, with its MurmurHash3 as it
-- runs on a little-endian machine.
use coin_vault.Common.{
  Bytes, length, u32, at, ℕ, zero, suc, ◌+◌, ◌-◌, ◌*◌, ◌/◌, ◌%◌, ◌^◌, min, Bool, true, false, not,
  none, [], ◌∷◌, ◌==◌, if◌then◌else◌, Result, ◌>>=◌, ◌>>◌, fault, ok,
}
use Prim.Native.Nat.{bit_and, bit_or, bit_xor}
pub mod Membership

abbrev max_bloom_filter_size : ℕ
max_bloom_filter_size = 36000

abbrev max_bloom_filter_hash_funcs : ℕ
max_bloom_filter_hash_funcs = 50

pub record BloomFilter : Type 0 where
  pub is_set : Bool
  pub filter : Bytes
  pub full : Bool
  pub empty : Bool
  pub hash_funcs : ℕ
  pub tweak : ℕ
  pub flags : ℕ

-- `x >> (32 - r)` moves in the bits that `x << r` has lost.
unfoldable pub rotl32 : ℕ → ℕ → ℕ
rotl32 x r = bit_or (u32 (x * 2 ^ r)) (x / 2 ^ (32 - r))

-- `k1 *= c1; k1 = ROTL32(k1, 15); k1 *= c2;`
unfoldable pub scramble : ℕ → ℕ
unfolding rotl32
scramble k = u32 (rotl32 (u32 (k * 0xcc9e2d51)) 15 * 0x1b873593)

-- The loop over the blocks of four bytes, and the `switch` on what is left.
unfoldable pub murmur_body : ℕ → Bytes → ℕ
unfolding scramble
murmur_body h [] = h
murmur_body h (a ∷ []) = bit_xor h (scramble a)
murmur_body h (a ∷ b ∷ []) = bit_xor h (scramble (bit_xor (b * 2 ^ 8) a))
murmur_body h (a ∷ b ∷ c ∷ []) = bit_xor h (scramble (bit_xor (bit_xor (c * 2 ^ 16) (b * 2 ^ 8)) a))
murmur_body h (a ∷ b ∷ c ∷ d ∷ rest) =
    let block = a + b * 2 ^ 8 + c * 2 ^ 16 + d * 2 ^ 24 in
    murmur_body (u32 (rotl32 (bit_xor h (scramble block)) 13 * 5 + 0xe6546b64)) rest

unfoldable pub murmur_hash3 : ℕ → Bytes → ℕ
unfolding murmur_body
murmur_hash3 seed bytes =
    let h = bit_xor (murmur_body seed bytes) (u32 (length bytes)) in
    let h' = u32 (bit_xor h (h / 2 ^ 16) * 0x85ebca6b) in
    let h'' = u32 (bit_xor h' (h' / 2 ^ 13) * 0xc2b2ae35) in bit_xor h'' (h'' / 2 ^ 16)

-- `%` by the number of bits, of which an empty filter has none.
unfoldable pub hash : BloomFilter → ℕ → Bytes → Result ℕ
unfolding murmur_hash3
hash b n bytes =
    if length b.filter == 0
    then fault
    else ok (murmur_hash3 (u32 (n * 0xfba4c795 + b.tweak)) bytes % (length b.filter * 8))

-- The powers of two.
unfoldable pub bit_mask : ℕ → ℕ
bit_mask k = 2 ^ k

unfoldable pub set_bits : Bytes → ℕ → ℕ → Result Bytes
set_bits [] n mask = fault
set_bits (x ∷ xs) zero mask = ok (bit_or x mask ∷ xs)
set_bits (x ∷ xs) (suc n) mask = do ys ← set_bits xs n mask; ok (x ∷ ys)

unfoldable pub has_bits : Bytes → ℕ → ℕ → Result Bool
unfolding at
has_bits xs n mask = do x ← at xs n; ok (not (bit_and x mask == 0))

-- The hash functions from `n` on, of which `rounds` are left.
unfoldable pub insert_from : ℕ → ℕ → Bytes → BloomFilter → Result BloomFilter
unfolding hash bit_mask set_bits
insert_from zero n bytes b = ok b
insert_from (suc rounds) n bytes b = do
  index ← hash b n bytes
  filter ← set_bits b.filter (index / 2 ^ 3) (bit_mask (index % 8))
  insert_from rounds (n + 1) bytes (record b { filter = filter })

unfoldable pub insert : BloomFilter → Bytes → Result BloomFilter
unfolding insert_from
insert b bytes =
    if b.full
    then ok b
    else (insert_from b.hash_funcs 0 bytes b >>= λ done. ok (record done { empty = false }))

unfoldable pub match_from : ℕ → ℕ → Bytes → BloomFilter → Result Bool
unfolding hash bit_mask has_bits
match_from zero n bytes b = ok true
match_from (suc rounds) n bytes b = do
  index ← hash b n bytes
  here ← has_bits b.filter (index / 2 ^ 3) (bit_mask (index % 8))
  if here then match_from rounds (n + 1) bytes b else ok false

unfoldable pub match : BloomFilter → Bytes → Result Bool
unfolding match_from
match b bytes =
    if b.full then ok true else if b.empty then ok false else match_from b.hash_funcs 0 bytes b

unfoldable pub zeros : ℕ → Bytes
zeros zero = []
zeros (suc n) = 0 ∷ zeros n

-- The floating-point products, as they are cast to `uint`: the number of bits, and the number of
-- hash functions for a number of bits to each element.
module _ (bits : ℕ) (funcs : ℕ → ℕ) where
  -- The second constructor is the same with all members new. An integer is divided by the number of
  -- elements.
  unfoldable pub set : ℕ → ℕ → ℕ → Result BloomFilter
  unfolding zeros
  set elements tweak flags =
      let size = min bits (max_bloom_filter_size * 8) / 8 in
      if elements == 0
      then fault
      else ok (record {
        is_set = true;
        filter = zeros size;
        full = false;
        empty = false;
        hash_funcs = min (funcs (size * 8 / elements)) max_bloom_filter_hash_funcs;
        tweak = tweak;
        flags = flags;
      })
