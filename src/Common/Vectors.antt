-- ===== src/Common/Vectors.antt =====
-- Byte vectors (stdutils/src/uchar_vector.h): a `uchar_vector` is a list of numbers, and a range of
-- iterators that leaves the vector is undefined behaviour.
use Prim.Native.Nat.{ℕ, zero, suc, ◌+◌, ◌%◌, ◌^◌, ◌≤◌, ◌<◌}
use mathlib.Core.Path.{◌≡◌, refl, ◌∙◌}
use mathlib.Core.Logic.{◌⊎◌, inl, inr}
use mathlib.Core.List.{List, [], ◌∷◌, ◌++◌, reverse, reverse-cons}
use native.Mathlib.Omega.{arith}
use native.Mathlib.Nat.{zero-add, suc-add}
use mathlib.Core.Bool.{Bool, true, false, ◌&&◌}
use coin_vault.Common.Tests.{◌==◌, ==-refl, and_true, ==-true}
use coin_vault.Common.Outcome.{Result, ok, fault, ◌>>=◌}

abbrev pub Bytes : Type 0
Bytes = List ℕ

pub le_cases : (a b : ℕ) → (a ≤ b) ⊎ (b < a)
le_cases a b = grind arith

module _ {ℓ} {A : Type ℓ} where
  abbrev pub length : List A → ℕ
  length [] = 0
  length (x ∷ xs) = suc (length xs)

  pub length-append : (xs ys : List A) → length (xs ++ ys) ≡ length xs + length ys
  length-append [] ys = omega arith
  length-append (x ∷ xs) ys = omega (arith, length-append xs ys)

  pub length-reverse : (bs : List A) → length (reverse bs) ≡ length bs
  length-reverse [] = refl
  length-reverse (b ∷ bs) =
      let ih = length-reverse bs in
      rw reverse-cons (omega (arith, length-append (reverse bs) (b ∷ [])))

  -- `vector(v.begin() + n, v.end())`
  unfoldable pub drop : ℕ → List A → Result (List A)
  drop zero xs = ok xs
  drop (suc n) [] = fault
  drop (suc n) (x ∷ xs) = drop n xs

  -- `vector(v.begin(), v.begin() + n)`
  unfoldable pub take : ℕ → List A → Result (List A)
  take zero xs = ok []
  take (suc n) [] = fault
  take (suc n) (x ∷ xs) = do ys ← take n xs; ok (x ∷ ys)

  -- `vector(v.begin() + pos, v.begin() + pos + n)`
  unfoldable pub slice : List A → ℕ → ℕ → Result (List A)
  unfolding drop take
  slice xs pos n = do rest ← drop pos xs; take n rest

  -- `v[pos]`
  unfoldable pub at : List A → ℕ → Result A
  at [] n = fault
  at (x ∷ xs) zero = ok x
  at (x ∷ xs) (suc n) = at xs n

  pub drop-append : (n : ℕ) (xs ys : List A) → length xs ≡ n → drop n (xs ++ ys) ≡ ok ys
  unfolding drop
  drop-append zero [] ys h = refl
  drop-append zero (x ∷ xs) ys h = absurd (omega arith)
  drop-append (suc n) [] ys h = absurd (omega arith)
  drop-append (suc n) (x ∷ xs) ys h = drop-append n xs ys (omega arith)

  pub take-append : (n : ℕ) (xs ys : List A) → length xs ≡ n → take n (xs ++ ys) ≡ ok xs
  unfolding take
  take-append zero [] ys h = refl
  take-append zero (x ∷ xs) ys h = absurd (omega arith)
  take-append (suc n) [] ys h = absurd (omega arith)
  take-append (suc n) (x ∷ xs) ys h = rw (take-append n xs ys (omega arith))

  pub take_short : (n : ℕ) (xs : List A) → length xs < n → take n xs ≡ fault
  unfolding take
  take_short zero xs h = absurd (omega arith)
  take_short (suc n) [] h = refl
  take_short (suc n) (x ∷ xs) h = rw (take_short n xs (omega arith))

  pub drop-length :
      (n : ℕ) (xs : List A) {ys : List A} → drop n xs ≡ ok ys → length xs ≡ n + length ys
  unfolding drop
  drop-length zero xs h = ground arith
  drop-length (suc n) [] h = cc
  drop-length (suc n) (x ∷ xs) h = omega (arith, drop-length n xs h)

  pub drop-add :
      (p q : ℕ) (xs : List A) {ys : List A} → drop p xs ≡ ok ys → drop (p + q) xs ≡ drop q ys
  unfolding drop
  drop-add zero q xs h = rw zero-add (ground arith)
  drop-add (suc p) q [] h = cc
  drop-add (suc p) q (x ∷ xs) h = rw suc-add (drop-add p q xs h)

  -- A cursor: from `p` on, `bs` holds `xs` and then `ys`.
  pub drop_field :
      (p n : ℕ) (bs xs ys : List A)
      → drop p bs ≡ ok (xs ++ ys)
      → length xs ≡ n
      → drop (p + n) bs ≡ ok ys
  drop_field p n bs xs ys h e = drop-add p n bs h ∙ drop-append n xs ys e

  pub slice_field :
      (p n : ℕ) (bs xs ys : List A)
      → drop p bs ≡ ok (xs ++ ys)
      → length xs ≡ n
      → slice bs p n ≡ ok xs
  unfolding slice
  slice_field p n bs xs ys h e = rw h (take-append n xs ys e)

  -- The cursor moves over `xs` to `q`.
  pub seek :
      (p q : ℕ) (bs xs ys : List A)
      → drop p bs ≡ ok (xs ++ ys)
      → q ≡ p + length xs
      → drop q bs ≡ ok ys
  seek p q bs xs ys h e = rw e (drop_field p (length xs) bs xs ys h refl)

  pub drop_zero : (bs : List A) → drop 0 bs ≡ ok bs
  unfolding drop
  drop_zero bs = refl

module _ {ℓ} {A : Type ℓ} where
  pub take_enough :
      (n : ℕ) (xs : List A) → n ≤ length xs → (ys : List A) × (take n xs ≡ ok ys) × (length ys ≡ n)
  unfolding take
  take_enough zero xs h = ([], refl, refl)
  take_enough (suc n) [] h = absurd (omega arith)
  take_enough (suc n) (x ∷ xs) h =
      let (ys, e, l) = take_enough n xs (omega arith) in (x ∷ ys, rw e, omega (arith, l))

  pub drop_enough :
      (n : ℕ) (xs : List A)
      → n ≤ length xs
      → (ys : List A) × (drop n xs ≡ ok ys) × (length xs ≡ n + length ys)
  unfolding drop
  drop_enough zero xs h = (xs, refl, omega arith)
  drop_enough (suc n) [] h = absurd (omega arith)
  drop_enough (suc n) (x ∷ xs) h =
      let (ys, e, l) = drop_enough n xs (omega arith) in (ys, e, omega (arith, l))

  pub drop_short : (n : ℕ) (xs : List A) → length xs < n → drop n xs ≡ fault
  unfolding drop
  drop_short zero xs h = absurd (omega arith)
  drop_short (suc n) [] h = refl
  drop_short (suc n) (x ∷ xs) h = drop_short n xs (omega arith)

  -- A range inside the vector is read.
  pub slice_enough :
      (xs : List A) (p n : ℕ)
      → p + n ≤ length xs
      → (ys : List A) × (slice xs p n ≡ ok ys) × (length ys ≡ n)
  unfolding slice
  slice_enough xs p n h =
      let (ys, e, l) = drop_enough p xs (omega arith) in
      let (zs, d, m) = take_enough n ys (omega (arith, l)) in (zs, rw (e, d), m)

  pub slice_short : (xs : List A) (p n : ℕ) → length xs < p + n → slice xs p n ≡ fault
  unfolding slice
  slice_short xs p n h = elim (le_cases p (length xs)) [
    | inl inside ↦
        let (ys, e, l) = drop_enough p xs inside in rw e (take_short n ys (omega (arith, l)))
    | inr outside ↦ rw (drop_short p xs outside) refl
  ]

  pub at_enough : (xs : List A) (n : ℕ) → n < length xs → (x : A) × (at xs n ≡ ok x)
  unfolding at
  at_enough [] n h = absurd (omega arith)
  at_enough (x ∷ xs) zero h = (x, refl)
  at_enough (x ∷ xs) (suc n) h = at_enough xs n (omega arith)

-- Every element is a byte.
abbrev pub AllBytes : Bytes → Type 0
AllBytes [] = Unit
AllBytes (b ∷ bs) = (b < 256) × AllBytes bs

pub append-AllBytes : (xs ys : Bytes) → AllBytes xs → AllBytes ys → AllBytes (xs ++ ys)
append-AllBytes [] ys h k = k
append-AllBytes (x ∷ xs) ys h k = (h.0, append-AllBytes xs ys h.1 k)

pub reverse-AllBytes : (xs : Bytes) → AllBytes xs → AllBytes (reverse xs)
reverse-AllBytes [] h = tt
reverse-AllBytes (x ∷ xs) h =
    rw (reverse-cons x xs)
      (append-AllBytes (reverse xs) (x ∷ []) (reverse-AllBytes xs h.1) (h.0, tt))

-- Arithmetic on `uint` and on `uint64_t`.
abbrev pub u32 : ℕ → ℕ
u32 n = n % 2 ^ 32

abbrev pub u64 : ℕ → ℕ
u64 n = n % 2 ^ 64

pub mod-le : (n m : ℕ) → n % m ≤ n
mod-le n m = grind arith

-- `==` on vectors of bytes.
unfoldable pub bytes_eq : Bytes → Bytes → Bool
bytes_eq [] [] = true
bytes_eq [] (y ∷ ys) = false
bytes_eq (x ∷ xs) [] = false
bytes_eq (x ∷ xs) (y ∷ ys) = (x == y) && bytes_eq xs ys

pub bytes_eq_refl : (bs : Bytes) → bytes_eq bs bs ≡ true
unfolding bytes_eq
bytes_eq_refl [] = refl
bytes_eq_refl (b ∷ bs) = rw (==-refl b, bytes_eq_refl bs) refl

pub bytes_eq-true : (xs ys : Bytes) → bytes_eq xs ys ≡ true → xs ≡ ys
unfolding bytes_eq
bytes_eq-true [] [] e = refl
bytes_eq-true [] (y ∷ ys) e = cc
bytes_eq-true (x ∷ xs) [] e = cc
bytes_eq-true (x ∷ xs) (y ∷ ys) e =
    let (same, tail) = and_true (x == y) (bytes_eq xs ys) e in
    rw (==-true x y same, bytes_eq-true xs ys tail) refl
