-- ===== src/Wire/VarInt.antt =====
-- class VarInt of CoinNodeData.cpp: integers in 1, 3, 5 or 9 bytes. A value is a uint64.
use coin_vault.Common.{
  ℕ, suc, ◌^◌, ◌≤◌, ◌<◌, ◌≡◌, refl, ◌∙◌, ◌≢◌, ◌&&◌, inl, inr, Bool-cases, [], ◌∷◌, ◌++◌, arith, ltb,
  leb, ◌==◌, if◌then◌else◌, Result, ok, err, fault, too_small, wrong_length, ◌>>=◌, ◌>>◌, throw_if,
  Bytes, length, at, drop, big_endian, uint_to_vch, length-uint_to_vch, length-append, read_uint,
  read_uint_field, read_uint_enough,
}

abbrev pub min_size : ℕ
min_size = 1

unfoldable pub get_size : ℕ → ℕ
get_size value =
    if ltb value 0xfd
    then 1
    else if leb value 0xffff
    then 3
    else if leb value 0xffffffff
    then 5
    else 9

unfoldable pub get_serialized : ℕ → Bytes
get_serialized value =
    if ltb value 0xfd
    then value ∷ []
    else if leb value 0xffff
    then 0xfd ∷ uint_to_vch 2 value big_endian
    else if leb value 0xffffffff
    then 0xfe ∷ uint_to_vch 4 value big_endian
    else 0xff ∷ uint_to_vch 8 value big_endian

unfoldable pub set_serialized : Bytes → Result ℕ
unfolding at
set_serialized bytes = do
  throw_if (ltb (length bytes) min_size) too_small
  first ← at bytes 0
  if ltb first 0xfd
      then ok first
      else if (first == 0xfd) && leb 3 (length bytes)
      then read_uint bytes 1 2 big_endian
      else if (first == 0xfe) && leb 5 (length bytes)
      then read_uint bytes 1 4 big_endian
      else if leb 9 (length bytes)
      then read_uint bytes 1 8 big_endian
      else err wrong_length

-- For every value, getSerialized writes exactly getSize bytes.
pub length-varint : (value : ℕ) → length (get_serialized value) ≡ get_size value
unfolding get_serialized get_size
length-varint value = ground (
  arith,
  length-uint_to_vch 2 value big_endian,
  length-uint_to_vch 4 value big_endian,
  length-uint_to_vch 8 value big_endian,
)

pub get_size_bounds : (value : ℕ) → (1 ≤ get_size value) × (get_size value ≤ 9)
unfolding get_size
get_size_bounds value = ground arith

pub get_size_large : (value : ℕ) → 2 ^ 32 ≤ value → get_size value ≡ 9
unfolding get_size
get_size_large value h = ground arith

read_back :
    (first k value : ℕ) (rest : Bytes)
    → value < 256 ^ suc k
    → read_uint (first ∷ (uint_to_vch (suc k) value big_endian ++ rest)) 1 (suc k) big_endian
      ≡ ok value
unfolding drop
read_back first k value rest h = read_uint_field 1 k value big_endian _ rest refl h

set_serialized_two :
    (xs : Bytes) → 2 ≤ length xs → set_serialized (0xfd ∷ xs) ≡ read_uint (0xfd ∷ xs) 1 2 big_endian
unfolding set_serialized
set_serialized_two xs h = ground arith

set_serialized_four :
    (xs : Bytes) → 4 ≤ length xs → set_serialized (0xfe ∷ xs) ≡ read_uint (0xfe ∷ xs) 1 4 big_endian
unfolding set_serialized
set_serialized_four xs h = ground arith

set_serialized_eight :
    (xs : Bytes) → 8 ≤ length xs → set_serialized (0xff ∷ xs) ≡ read_uint (0xff ∷ xs) 1 8 big_endian
unfolding set_serialized
set_serialized_eight xs h = ground arith

long_enough : (k value : ℕ) (rest : Bytes) → k ≤ length (uint_to_vch k value big_endian ++ rest)
long_enough k value rest = omega (
  arith,
  length-append (uint_to_vch k value big_endian) rest,
  length-uint_to_vch k value big_endian,
)

-- For every value below 2^64, setSerialized reads the value back from what getSerialized wrote,
-- whatever bytes follow it.
pub varint_round_trip :
    (value : ℕ) (rest : Bytes)
    → value < 2 ^ 64
    → set_serialized (get_serialized value ++ rest) ≡ ok value
unfolding get_serialized
varint_round_trip value rest h = elim (Bool-cases (ltb value 0xfd)) [
  | inl small ↦ rw small (unfold set_serialized in ground arith)
  | inr wide ↦ elim (Bool-cases (leb value 0xffff)) [
    | inl two ↦
        rw (wide, two)
          (set_serialized_two _ (long_enough 2 value rest)
            ∙ read_back 0xfd 1 value rest (ground arith))
    | inr wider ↦ elim (Bool-cases (leb value 0xffffffff)) [
      | inl four ↦
          rw (wide, wider, four)
            (set_serialized_four _ (long_enough 4 value rest)
              ∙ read_back 0xfe 3 value rest (ground arith))
      | inr eight ↦
          rw (wide, wider, eight)
            (set_serialized_eight _ (long_enough 8 value rest)
              ∙ read_back 0xff 7 value rest (ground arith))
    ]
  ]
]

-- setSerialized reads no byte outside the vector, whatever the vector holds.
pub varint-ne-fault : (bytes : Bytes) → set_serialized bytes ≢ fault
unfolding set_serialized at
varint-ne-fault [] e = cc
varint-ne-fault (b ∷ bs) e = ground (
  arith,
  read_uint_enough (b ∷ bs) 1 2 big_endian,
  read_uint_enough (b ∷ bs) 1 4 big_endian,
  read_uint_enough (b ∷ bs) 1 8 big_endian,
)
