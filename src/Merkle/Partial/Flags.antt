-- ===== src/Merkle/Partial/Flags.antt =====
-- PartialMerkleTree::getFlags, which packs the bits of a tree into bytes, and the loop of
-- setCompressed that unpacks them.
use native.Mathlib.Nat.{pow-suc, zero-add, suc-add, div-eq_of_lt}
use coin_vault.Common.{
  Bytes, ℕ, zero, suc, ◌+◌, ◌-◌, ◌/◌, ◌%◌, ◌^◌, ◌≤◌, ◌<◌, ◌≡◌, refl, ap, ◌∙◌, inl, inr, Bool, true,
  false, List, [], ◌∷◌, ◌++◌, append_assoc, append-nil, arith, ◌==◌, if◌then◌else◌, Bool-cases,
}

-- `byte |= 1 << i`
unfoldable pub set_bit : ℕ → ℕ → ℕ
set_bit i byte = if byte / 2 ^ i % 2 == 1 then byte else byte + 2 ^ i

-- `if (bit) byte |= 1 << i;`
abbrev put : Bool → ℕ → ℕ → ℕ
unfolding set_bit
put bit i byte = if bit then set_bit i byte else byte

-- The loop over the bits; `counter` is `byteCounter`. A full byte is pushed before the next bit.
unfoldable pub pack : ℕ → ℕ → List Bool → Bytes
unfolding set_bit
pack counter byte [] = byte ∷ []
pack counter byte (bit ∷ bits) =
    let full = counter == 8 in
    let i = if full then 0 else counter in
    let b = if full then 0 else byte in
    let tail = pack (i + 1) (put bit i b) bits in if full then byte ∷ tail else tail

unfoldable pub get_flags : List Bool → Bytes
unfolding pack
get_flags bits = pack 0 0 bits

-- `(flag >> i) & 1`
abbrev pub bit_at : ℕ → ℕ → Bool
bit_at flag i = flag / 2 ^ i % 2 == 1

unfoldable pub unpack : Bytes → List Bool
unpack [] = []
unpack (flag ∷ flags) =
    bit_at flag 0
    ∷ bit_at flag 1
    ∷ bit_at flag 2
    ∷ bit_at flag 3
    ∷ bit_at flag 4
    ∷ bit_at flag 5
    ∷ bit_at flag 6
    ∷ bit_at flag 7
    ∷ unpack flags

-- The lowest bits of a byte.
abbrev low : ℕ → ℕ → List Bool
low zero b = []
low (suc k) b = (b % 2 == 1) ∷ low k (b / 2)

abbrev pub falses : ℕ → List Bool
falses zero = []
falses (suc k) = false ∷ falses k

-- One more bit of a byte that has no bit at its place or above.
low-snoc :
    (c b : ℕ) (bit : Bool)
    → b < 2 ^ c
    → low (suc c) (b + (if bit then 2 ^ c else 0)) ≡ low c b ++ (bit ∷ [])
low-snoc zero b true h = let none : b ≡ 0 = omega arith in rw none refl
low-snoc zero b false h = let none : b ≡ 0 = omega arith in rw none refl
low-snoc (suc c) b bit h =
    let parity : (b + (if bit then 2 ^ suc c else 0)) % 2 ≡ b % 2 = ground (arith, pow-suc 2 c) in
    let half : (b + (if bit then 2 ^ suc c else 0)) / 2 ≡ b / 2 + (if bit then 2 ^ c else 0) =
      ground (arith, pow-suc 2 c) in
    let ih = low-snoc c (b / 2) bit (omega (arith, pow-suc 2 c)) in
    rw (parity, half) (ap (λ bits. (b % 2 == 1) ∷ bits) ih)

low-zero : (k : ℕ) → low k 0 ≡ falses k
low-zero zero = refl
low-zero (suc k) = ap (λ bits. false ∷ bits) (low-zero k)

low-falses : (c k b : ℕ) → b < 2 ^ c → low (c + k) b ≡ low c b ++ falses k
low-falses zero k b h = let none : b ≡ 0 = omega arith in rw (none, zero-add) (low-zero k)
low-falses (suc c) k b h =
    rw suc-add
      (ap (λ bits. (b % 2 == 1) ∷ bits) (low-falses c k (b / 2) (omega (arith, pow-suc 2 c))))

unpack-low : (flag : ℕ) (flags : Bytes) → unpack (flag ∷ flags) ≡ low 8 flag ++ unpack flags
unfolding unpack
unpack-low flag flags =
    let d1 : flag / 1 ≡ flag = omega arith in
    let d2 : flag / 2 / 2 ≡ flag / 4 = omega arith in
    let d3 : flag / 4 / 2 ≡ flag / 8 = omega arith in
    let d4 : flag / 8 / 2 ≡ flag / 16 = omega arith in
    let d5 : flag / 16 / 2 ≡ flag / 32 = omega arith in
    let d6 : flag / 32 / 2 ≡ flag / 64 = omega arith in
    let d7 : flag / 64 / 2 ≡ flag / 128 = omega arith in rw (d1, d2, d3, d4, d5, d6, d7) refl

set_bit-clear : (i b : ℕ) → b < 2 ^ i → set_bit i b ≡ b + 2 ^ i
unfolding set_bit
set_bit-clear i b h = rw (div-eq_of_lt h) refl

put_lem : (bit : Bool) (i b : ℕ) → b < 2 ^ i → put bit i b ≡ b + (if bit then 2 ^ i else 0)
unfolding put
put_lem true i b h = set_bit-clear i b h
put_lem false i b h = omega arith

put-bound : (bit : Bool) (i b : ℕ) → b < 2 ^ i → put bit i b < 2 ^ (i + 1)
put-bound bit i b h = rw (put_lem bit i b h) (ground (arith, pow-suc 2 i))

low-put : (bit : Bool) (i b : ℕ) → b < 2 ^ i → low (i + 1) (put bit i b) ≡ low i b ++ (bit ∷ [])
low-put bit i b h =
    let next : i + 1 ≡ suc i = omega arith in rw (put_lem bit i b h, next) (low-snoc i b bit h)

first_bit : (bit : Bool) → low 1 (put bit 0 0) ≡ bit ∷ []
unfolding put set_bit
first_bit true = refl
first_bit false = refl

full_byte :
    (c b : ℕ) (bit : Bool) (bits : List Bool)
    → (c == 8) ≡ true
    → pack c b (bit ∷ bits) ≡ b ∷ pack 1 (put bit 0 0) bits
unfolding pack
full_byte c b bit bits full = rw full refl

free_byte :
    (c b : ℕ) (bit : Bool) (bits : List Bool)
    → (c == 8) ≡ false
    → pack c b (bit ∷ bits) ≡ pack (c + 1) (put bit c b) bits
unfolding pack
free_byte c b bit bits free = rw free refl

-- The bits in the byte come first, and then the others, with padding up to a whole byte.
unpack-pack :
    (c b : ℕ) (bits : List Bool)
    → c ≤ 8
    → b < 2 ^ c
    → (k : ℕ) × (unpack (pack c b bits) ≡ low c b ++ (bits ++ falses k))
unpack-pack c b [] room small =
    let eight : c + (8 - c) ≡ 8 = omega arith in
    (
      8 - c,
      unfold pack in
          rw (unpack-low b [])
            (unfold unpack in rw append-nil (rw eight at (low-falses c (8 - c) b small))),
    )
unpack-pack c b (bit ∷ bits) room small = elim (Bool-cases (c == 8)) [
  | inl full ↦
      let eight : c ≡ 8 = ground arith in
      let (k, ih) =
        unpack-pack 1 (put bit 0 0) bits (omega arith) (put-bound bit 0 0 (omega arith)) in
      let first : unpack (pack 1 (put bit 0 0) bits) ≡ bit ∷ (bits ++ falses k) =
        ih ∙ ap (λ t. t ++ (bits ++ falses k)) (first_bit bit) in
      (k, rw (full_byte c b bit bits full, unpack-low, first, eight) refl)
  | inr free ↦
      let (k, ih) =
        unpack-pack (c + 1) (put bit c b) bits (ground arith) (put-bound bit c b small) in
      (
        k,
        rw (free_byte c b bit bits free, ih, low-put bit c b small)
            (append_assoc (low c b) (bit ∷ []) (bits ++ falses k)),
      )
]

-- Unpacking the flag bytes that getFlags has packed, as the loop of setCompressed does, gives the
-- bits back, followed by false for the rest of the last byte.
pub unpack-get_flags : (bits : List Bool) → (k : ℕ) × (unpack (get_flags bits) ≡ bits ++ falses k)
unfolding get_flags
unpack-get_flags bits = unpack-pack 0 0 bits (omega arith) (omega arith)
