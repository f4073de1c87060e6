-- ===== src/Base58/Digits.antt =====
-- Numbers in base 58, as class BigInt of CoinCore/src/BigInt.h writes and reads them.
use coin_vault.Common.{
  Bytes, length, at, ℕ, zero, suc, ◌+◌, ◌*◌, ◌≤◌, ◌<◌, ◌≡◌, refl, sym, ap, ◌∙◌, inl, inr, false,
  Option, none, some, [], ◌∷◌, ◌++◌, append_assoc, append-nil, arith, ◌==◌, Bool-cases, if_cases,
  ==-true, ok-injective, ok,
}
use coin_vault.Base58.Numbers.{Bignum}
use coin_vault.Base58.Alphabet.{IsAlphabet}
use coin_vault.Base58.{
  strchr, further, put_digit, in_base_loop, get_in_base, set_in_base_from, set_in_base,
}

unfoldable pub add_digit : ℕ → Option ℕ → ℕ
add_digit n none = n
add_digit n (some p) = n * 58 + p

-- The number that a string stands for, behind the number of what stands before it.
unfoldable pub read : Bytes → Bytes → ℕ → ℕ
unfolding add_digit
read chars [] n = n
read chars (c ∷ cs) n = read chars cs (add_digit n (strchr chars c))

pub read-append :
    (chars : Bytes) (s t : Bytes) (n : ℕ) → read chars (s ++ t) n ≡ read chars t (read chars s n)
unfolding read
read-append chars [] t n = refl
read-append chars (c ∷ s) t n = read-append chars s t (add_digit n (strchr chars c))

pub strchr-le : (chars : Bytes) (c p : ℕ) → strchr chars c ≡ some p → p ≤ length chars
unfolding strchr
strchr-le [] c p found = elim (if_cases (c == 0) found) [
  | inl (_, e) ↦ ground arith
  | inr (_, e) ↦ cc
]
strchr-le (a ∷ rest) c p found = elim (if_cases (a == c) found) [
  | inl (_, e) ↦ ground arith
  | inr (_, e) ↦ later (strchr rest c) (strchr-le rest c) e
]
  where
    later :
        (o : Option ℕ)
        → ((q : ℕ) → o ≡ some q → q ≤ length rest)
        → further o ≡ some p
        → p ≤ length (a ∷ rest)
    later none low f = cc
    later (some q) low f = ground (arith, low q refl)

-- The first character is not the one for 0.
abbrev pub Leads : ℕ → Bytes → Type 0
Leads zero_symbol [] = ⊥
Leads zero_symbol (c ∷ s) = (c == zero_symbol) ≡ false

Leads-append : (z : ℕ) (s t : Bytes) → Leads z s → Leads z (s ++ t)
Leads-append z [] t h = absurd h
Leads-append z (c ∷ s) t h = h

module _ (bignum : Bignum) (chars : Bytes) (alphabet : IsAlphabet chars) where
  open bignum use {Bn, value, div_word, mod_word, is_zero, set_word, mul_word, add_word}

  -- A digit other than 0 is not written as 0.
  digit_symbol :
      (d z c : ℕ) → 0 < d → at chars 0 ≡ ok z → strchr chars c ≡ some d → (c == z) ≡ false
  digit_symbol d z c h zero_at found = elim (Bool-cases (c == z)) [
    | inl same ↦
        let (first, read_first, position) = alphabet.1 0 (omega arith) in
        let e : c ≡ first = ==-true c z same ∙ ok-injective (sym zero_at ∙ read_first) in
        ground (arith, rw e at found)
    | inr e ↦ e
  ]

  positive : (n : ℕ) → (n == 0) ≡ false → 0 < n
  positive n e = ground arith

  in_base_loop_lem :
      (fuel : ℕ) (num : Bn) (written : Bytes) (z : ℕ)
      → value num < fuel
      → at chars 0 ≡ ok z
      → (s : Bytes) × (in_base_loop bignum fuel 58 chars num written ≡ ok (s ++ written))
        × (read chars s 0 ≡ value num)
        × (0 < value num → Leads z s)
  unfolding in_base_loop read
  in_base_loop_lem zero num written z h zero_at = absurd (omega arith)
  in_base_loop_lem (suc fuel) num written z h zero_at =
      let m = bignum.mod_word_lem num 58 (omega arith) (omega arith) in
      let q = bignum.value-div_word num 58 (omega arith) (omega arith) in
      let zero_test = bignum.is_zero_lem (div_word num 58) in
      let (c, read_c, found) = alphabet.1 (mod_word num 58) (omega (arith, m)) in
      elim (Bool-cases (value (div_word num 58) == 0)) [
        | inl last ↦ (
          c ∷ [],
          rw (read_c, zero_test, last) refl,
          rw found (omega (arith, m, q, ==-true _ _ last)),
          λ pos.
              digit_symbol (mod_word num 58) z c (omega (arith, m, q, ==-true _ _ last)) zero_at
                found,
        )
        | inr more ↦
            let (s, e, v, leads) =
              in_base_loop_lem fuel (div_word num 58) (c ∷ written) z
                (omega (arith, q, positive _ more)) zero_at in
            (
              s ++ (c ∷ []),
              rw (read_c, zero_test, more, e, append_assoc s (c ∷ []) written) refl,
              rw (read-append chars s (c ∷ []) 0, v, found) (omega (arith, m, q)),
              λ pos. Leads-append z s (c ∷ []) (leads (positive _ more)),
            )
      ]

  set_in_base_from_lem :
      (s : Bytes) (num : Bn)
      → value (set_in_base_from bignum 58 chars num s) ≡ read chars s (value num)
  unfolding set_in_base_from read
  set_in_base_from_lem [] num = refl
  set_in_base_from_lem (c ∷ s) num =
      set_in_base_from_lem s (put_digit bignum 58 num (strchr chars c))
      ∙ ap (read chars s) (put_digit_lem (strchr chars c) refl)
    where
      put_digit_lem :
          (o : Option ℕ)
          → strchr chars c ≡ o
          → value (put_digit bignum 58 num o) ≡ add_digit (value num) o
      put_digit_lem none e = refl
      put_digit_lem (some p) e =
          let low = strchr-le chars c p e in
          bignum.value-add_word (mul_word num 58) p (omega (arith, alphabet.0))
          ∙ ap (λ (n : ℕ). n + p) (bignum.value-mul_word num 58 (omega arith))

  -- What a number is written as is read back, and has no leading zero unless the number is 0.
  pub get_in_base_lem :
      (num : Bn) (z : ℕ)
      → at chars 0 ≡ ok z
      → (s : Bytes) × (get_in_base bignum 58 chars num ≡ ok s)
        × (read chars s 0 ≡ value num)
        × (0 < value num → Leads z s)
  unfolding get_in_base
  get_in_base_lem num z zero_at =
      let (s, e, v, leads) = in_base_loop_lem (value num + 1) num [] z (omega arith) zero_at in
      (s, e ∙ ap ok (append-nil s), v, leads)

  pub set_in_base_lem : (s : Bytes) → value (set_in_base bignum 58 chars s) ≡ read chars s 0
  unfolding set_in_base
  set_in_base_lem s =
      set_in_base_from_lem s (set_word 0)
      ∙ ap (read chars s) (bignum.value-set_word 0 (omega arith))
