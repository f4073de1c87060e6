-- ===== src/Common/Words.antt =====
-- numericdata.h: unsigned integers as byte vectors, in the code's own naming of the byte orders.
use Prim.Native.Nat.{ℕ, zero, suc, ◌+◌, ◌*◌, ◌/◌, ◌%◌, ◌^◌, ◌≤◌, ◌<◌}
use mathlib.Core.Path.{◌≡◌, refl, ap, ◌∙◌}
use mathlib.Core.List.{[], ◌∷◌, ◌++◌, reverse, reverse-cons, append-nil}
use native.Mathlib.Omega.{arith}
use native.Mathlib.Nat.{mod-eq_of_lt, pow-suc, zero-add}
use coin_vault.Common.Outcome.{Result, ok, fault, ◌>>=◌}
use coin_vault.Common.Vectors.{
  AllBytes, reverse-AllBytes, Bytes, length, length-reverse, take, take-append, drop, slice,
  slice_enough, slice_short, take_enough, slice_field, drop_field,
}

-- `_LITTLE_ENDIAN` and `_BIG_ENDIAN`, as the code has them: `big_endian` puts the lowest byte first.
pub data Endianness : Type 0 where
  little_endian big_endian : Endianness

-- The loop of `uint_to_vch<T>` with `size` = sizeof(T); the last `push_back` keeps the low byte.
unfoldable pub push_bytes : ℕ → ℕ → Bytes
push_bytes zero n = []
push_bytes (suc zero) n = n % 256 ∷ []
push_bytes (suc (suc k)) n = n % 256 ∷ push_bytes (suc k) (n / 256)

unfoldable pub uint_to_vch : ℕ → ℕ → Endianness → Bytes
unfolding push_bytes
uint_to_vch size n little_endian = reverse (push_bytes size n)
uint_to_vch size n big_endian = push_bytes size n

-- The loop of `vch_to_uint<T>`: every byte but the last is added and shifted up; `m` is 2^(8 sizeof(T)).
unfoldable pub shift_in : ℕ → ℕ → Bytes → ℕ
shift_in m n [] = n
shift_in m n (b ∷ []) = (n + b) % m
shift_in m n (b ∷ c ∷ bs) = shift_in m ((n + b) % m * 256 % m) (c ∷ bs)

abbrev ordered : Endianness → Bytes → Bytes
ordered little_endian bs = bs
ordered big_endian bs = reverse bs

-- The vector must hold sizeof(T) bytes.
unfoldable pub vch_to_uint : ℕ → Bytes → Endianness → Result ℕ
unfolding shift_in take
vch_to_uint size vch e = do bytes ← take size vch; ok (shift_in (256 ^ size) 0 (ordered e bytes))

length-push_bytes : (k n : ℕ) → length (push_bytes k n) ≡ k
unfolding push_bytes
length-push_bytes zero n = refl
length-push_bytes (suc zero) n = refl
length-push_bytes (suc (suc k)) n = omega (arith, length-push_bytes (suc k) (n / 256))

pub length-uint_to_vch : (k n : ℕ) (e : Endianness) → length (uint_to_vch k n e) ≡ k
unfolding uint_to_vch
length-uint_to_vch k n little_endian = length-reverse (push_bytes k n) ∙ length-push_bytes k n
length-uint_to_vch k n big_endian = length-push_bytes k n

shift_in-snoc :
    (m n b c : ℕ) (bs : Bytes)
    → shift_in m n ((c ∷ bs) ++ (b ∷ [])) ≡ (shift_in m n (c ∷ bs) * 256 % m + b) % m
unfolding shift_in
shift_in-snoc m n b c [] = refl
shift_in-snoc m n b c (d ∷ bs) = shift_in-snoc m ((n + c) % m * 256 % m) b d bs

shift_in-snoc_pos :
    (m n b : ℕ) (bs : Bytes)
    → 0 < length bs
    → shift_in m n (bs ++ (b ∷ [])) ≡ (shift_in m n bs * 256 % m + b) % m
shift_in-snoc_pos m n b [] h = absurd (omega arith)
shift_in-snoc_pos m n b (c ∷ bs) h = shift_in-snoc m n b c bs

-- Joining the lowest byte again loses nothing below the modulus.
rejoin : (m n : ℕ) → n < m → (n / 256 * 256 % m + n % 256) % m ≡ n
rejoin m n h =
    let whole : n / 256 * 256 + n % 256 ≡ n = omega arith in
    rw (mod-eq_of_lt {n = n / 256 * 256} {m = m} (omega arith), whole) (mod-eq_of_lt h)

div-lt-pow : (k n : ℕ) → n < 256 ^ suc k → n / 256 < 256 ^ k
div-lt-pow k n h = omega (arith, pow-suc 256 k)

shift_in-push_bytes :
    (m k n : ℕ) → n < m → n < 256 ^ suc k → shift_in m 0 (reverse (push_bytes (suc k) n)) ≡ n
unfolding push_bytes shift_in
shift_in-push_bytes m zero n h b = rw (zero-add, mod-eq_of_lt {n = n} {m = 256} b) (mod-eq_of_lt h)
shift_in-push_bytes m (suc k) n h b =
    ap (shift_in m 0) (reverse-cons (n % 256) tail)
    ∙ shift_in-snoc_pos m 0 (n % 256) (reverse tail)
        (omega (arith, length-reverse tail, length-push_bytes (suc k) (n / 256)))
    ∙ rw (shift_in-push_bytes m k (n / 256) (omega arith) (div-lt-pow (suc k) n b)) (rejoin m n h)
  where
    tail : Bytes
    tail = push_bytes (suc k) (n / 256)

-- Reading back what was written, whatever follows it.
pub vch_to_uint-uint_to_vch :
    (k n : ℕ) (e : Endianness) (rest : Bytes)
    → n < 256 ^ suc k
    → vch_to_uint (suc k) (uint_to_vch (suc k) n e ++ rest) e ≡ ok n
unfolding vch_to_uint uint_to_vch
vch_to_uint-uint_to_vch k n little_endian rest h =
    rw (take-append (suc k) _ rest (length-uint_to_vch (suc k) n little_endian))
      (ap ok (shift_in-push_bytes (256 ^ suc k) k n h h))
vch_to_uint-uint_to_vch k n big_endian rest h =
    rw (take-append (suc k) _ rest (length-uint_to_vch (suc k) n big_endian))
      (ap ok (shift_in-push_bytes (256 ^ suc k) k n h h))

pub vch_to_uint_exact :
    (k n : ℕ) (e : Endianness)
    → n < 256 ^ suc k
    → vch_to_uint (suc k) (uint_to_vch (suc k) n e) e ≡ ok n
vch_to_uint_exact k n e h = rw append-nil at (vch_to_uint-uint_to_vch k n e [] h)

-- `vch_to_uint<T>(uchar_vector(bytes.begin() + pos, bytes.begin() + pos + sizeof(T)), e)`
unfoldable pub read_uint : Bytes → ℕ → ℕ → Endianness → Result ℕ
unfolding slice vch_to_uint
read_uint bytes pos size e = do field ← slice bytes pos size; vch_to_uint size field e

-- A written integer under the cursor is read back.
pub read_uint_field :
    (p k n : ℕ) (e : Endianness) (bs rest : Bytes)
    → drop p bs ≡ ok (uint_to_vch (suc k) n e ++ rest)
    → n < 256 ^ suc k
    → read_uint bs p (suc k) e ≡ ok n
unfolding read_uint
read_uint_field p k n e bs rest h b =
    rw (slice_field p (suc k) bs _ rest h (length-uint_to_vch (suc k) n e))
      (vch_to_uint_exact k n e b)

pub drop_uint_field :
    (p k n : ℕ) (e : Endianness) (bs rest : Bytes)
    → drop p bs ≡ ok (uint_to_vch k n e ++ rest)
    → drop (p + k) bs ≡ ok rest
drop_uint_field p k n e bs rest h = drop_field p k bs _ rest h (length-uint_to_vch k n e)

pub vch_to_uint_enough :
    (bs : Bytes) (k : ℕ) (e : Endianness) → k ≤ length bs → (v : ℕ) × (vch_to_uint k bs e ≡ ok v)
unfolding vch_to_uint
vch_to_uint_enough bs k e h =
    let (bytes, t, _) = take_enough k bs h in (shift_in (256 ^ k) 0 (ordered e bytes), rw t)

-- An integer inside the vector is read.
pub read_uint_enough :
    (bs : Bytes) (p k : ℕ) (e : Endianness)
    → p + k ≤ length bs
    → (v : ℕ) × (read_uint bs p k e ≡ ok v)
unfolding read_uint vch_to_uint
read_uint_enough bs p k e h =
    let (field, s, l) = slice_enough bs p k h in
    let (bytes, t, _) = take_enough k field (omega (arith, l)) in
    (shift_in (256 ^ k) 0 (ordered e bytes), rw (s, t))

-- An integer that ends behind the vector is not.
pub read_uint_short :
    (bs : Bytes) (p k : ℕ) (e : Endianness) → length bs < p + k → read_uint bs p k e ≡ fault
unfolding read_uint
read_uint_short bs p k e h = rw (slice_short bs p k h) refl

push_bytes-AllBytes : (k n : ℕ) → AllBytes (push_bytes k n)
unfolding push_bytes
push_bytes-AllBytes zero n = tt
push_bytes-AllBytes (suc zero) n = (omega arith, tt)
push_bytes-AllBytes (suc (suc k)) n = (omega arith, push_bytes-AllBytes (suc k) (n / 256))

pub uint_to_vch-AllBytes : (k n : ℕ) (e : Endianness) → AllBytes (uint_to_vch k n e)
unfolding uint_to_vch
uint_to_vch-AllBytes k n little_endian = reverse-AllBytes _ (push_bytes-AllBytes k n)
uint_to_vch-AllBytes k n big_endian = push_bytes-AllBytes k n
