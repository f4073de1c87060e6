-- ===== src/Tests/BloomTests.antt =====
-- MurmurHash3 on known inputs, and a filter of 16 bits.
use coin_vault.Common.{ℕ, ◌≡◌, refl, false, [], ◌∷◌, arith, ◌>>=◌, ok}
use coin_vault.Bloom.{BloomFilter, murmur_hash3, set, match, insert}
use coin_vault.Bloom.Membership.{insert_all, AllMatch, insert_all-AllMatch}

murmur_empty : murmur_hash3 0xfba4c795 [] ≡ 0x6a396f08
unfolding murmur_hash3
murmur_empty = refl

murmur_byte : murmur_hash3 0 (0x00 ∷ []) ≡ 0x514e28b7
unfolding murmur_hash3
murmur_byte = refl

murmur_bytes : murmur_hash3 0 (0xff ∷ 0xff ∷ 0xff ∷ 0xff ∷ []) ≡ 0x76293b50
unfolding murmur_hash3
murmur_bytes = refl

-- A filter for two elements, with three hash functions.
abbrev funcs : ℕ → ℕ
funcs bits_each = 3

absent : (do b ← set 16 funcs 2 0 0; c ← insert b (1 ∷ []); match c (4 ∷ [])) ≡ ok false
unfolding set insert match
absent = refl

insert_all-AllMatch_example :
    (b : BloomFilter) × (after : BloomFilter) × (set 16 funcs 2 0 0 ≡ ok b)
    × (insert_all b ((1 ∷ []) ∷ (2 ∷ 3 ∷ []) ∷ []) ≡ ok after)
    × AllMatch after ((1 ∷ []) ∷ (2 ∷ 3 ∷ []) ∷ [])
insert_all-AllMatch_example =
    insert_all-AllMatch 16 funcs 2 0 0 ((1 ∷ []) ∷ (2 ∷ 3 ∷ []) ∷ []) (omega arith) (omega arith)
