-- ===== src/Script/PushData.antt =====
-- opPushData and getDataLength of CoinQ_script.cpp: the operators that push data.
use coin_vault.Common.{
  Bytes, length, drop-length, drop_field, u32, drop, at, ℕ, zero, suc, ◌+◌, ◌*◌, ◌/◌, ◌%◌, ◌^◌, ◌≤◌,
  ◌<◌, ◌≡◌, refl, ap, ◌∙◌, inl, inr, false, [], ◌∷◌, ◌++◌, arith, leb, ◌==◌, if◌then◌else◌,
  Bool-cases, leb-true, leb-false, Result, ◌>>=◌, ◌>>◌, throw_if, pos_past_end, not_push_data, ok,
  err,
}

-- `nBytes` is a uint32.
unfoldable pub op_push_data : ℕ → Bytes
op_push_data n =
    if leb n 0x4b
    then n % 256 ∷ []
    else if leb n 0xff
    then 0x4c ∷ n % 256 ∷ []
    else if leb n 0xffff
    then 0x4d ∷ n % 256 ∷ n / 2 ^ 8 % 256 ∷ []
    else 0x4e ∷ n % 256 ∷ n / 2 ^ 8 % 256 ∷ n / 2 ^ 16 % 256 ∷ n / 2 ^ 24 % 256 ∷ []

-- The operands of 0x4c, 0x4d and 0x4e.
unfoldable pub one_byte : Bytes → ℕ → Result (ℕ × ℕ)
unfolding at
one_byte script pos = do
  throw_if (leb (length script) pos) pos_past_end
  b0 ← at script pos
  ok (b0, u32 (pos + 1))

unfoldable pub two_bytes : Bytes → ℕ → Result (ℕ × ℕ)
unfolding at
two_bytes script pos = do
  throw_if (leb (length script) (u32 (pos + 1))) pos_past_end
  b0 ← at script pos
  b1 ← at script (u32 (pos + 1))
  ok (u32 (b0 + b1 * 2 ^ 8), u32 (pos + 2))

unfoldable pub four_bytes : Bytes → ℕ → Result (ℕ × ℕ)
unfolding at
four_bytes script pos = do
  throw_if (leb (length script) (u32 (pos + 3))) pos_past_end
  b0 ← at script pos
  b1 ← at script (u32 (pos + 1))
  b2 ← at script (u32 (pos + 2))
  b3 ← at script (u32 (pos + 3))
  ok (u32 (b0 + b1 * 2 ^ 8 + b2 * 2 ^ 16 + b3 * 2 ^ 24), u32 (pos + 4))

-- `pos` is a `uint`; the result is the length of the data and the place where it begins.
unfoldable pub get_data_length : Bytes → ℕ → Result (ℕ × ℕ)
unfolding at one_byte two_bytes four_bytes
get_data_length script pos = do
  throw_if (leb (length script) pos) pos_past_end
  op ← at script pos
  if leb op 0x4b
      then ok (op, u32 (pos + 1))
      else if op == 0x4c
      then one_byte script (u32 (pos + 1))
      else if op == 0x4d
      then two_bytes script (u32 (pos + 1))
      else if op == 0x4e
      then four_bytes script (u32 (pos + 1))
      else err not_push_data

-- A byte under the cursor.
pub at_cursor :
    (bs : Bytes) (p : ℕ) {b : ℕ} {rest : Bytes} → drop p bs ≡ ok (b ∷ rest) → at bs p ≡ ok b
unfolding drop at
at_cursor [] zero h = cc
at_cursor [] (suc p) h = cc
at_cursor (x ∷ bs) zero h = cc
at_cursor (x ∷ bs) (suc p) h = at_cursor bs p h

next_cursor :
    (bs : Bytes) (p : ℕ) {b : ℕ} {rest : Bytes}
    → drop p bs ≡ ok (b ∷ rest)
    → drop (p + 1) bs ≡ ok rest
next_cursor bs p {b} {rest} h = drop_field p 1 bs (b ∷ []) rest h refl

module _ (script : Bytes) (small : length script < 2 ^ 32) where
  one_byte_lem :
      (pos b0 : ℕ) (rest : Bytes)
      → drop pos script ≡ ok (b0 ∷ rest)
      → one_byte script pos ≡ ok (b0, pos + 1)
  unfolding one_byte
  one_byte_lem pos b0 rest h =
      let size = drop-length pos script h in
      let inside : leb (length script) pos ≡ false = leb-false _ _ (omega arith) in
      let wrap : u32 (pos + 1) ≡ pos + 1 = omega arith in
      rw (inside, at_cursor script pos h, wrap) refl

  two_bytes_lem :
      (pos b0 b1 : ℕ) (rest : Bytes)
      → drop pos script ≡ ok (b0 ∷ b1 ∷ rest)
      → two_bytes script pos ≡ ok (u32 (b0 + b1 * 2 ^ 8), pos + 2)
  unfolding two_bytes
  two_bytes_lem pos b0 b1 rest h =
      let size = drop-length pos script h in
      let w1 : u32 (pos + 1) ≡ pos + 1 = omega arith in
      let w2 : u32 (pos + 2) ≡ pos + 2 = omega arith in
      let inside : leb (length script) (pos + 1) ≡ false = leb-false _ _ (omega arith) in
      let h1 = next_cursor script pos h in
      rw (w1, w2, inside, at_cursor script pos h, at_cursor script (pos + 1) h1) refl

  four_bytes_lem :
      (pos b0 b1 b2 b3 : ℕ) (rest : Bytes)
      → drop pos script ≡ ok (b0 ∷ b1 ∷ b2 ∷ b3 ∷ rest)
      → four_bytes script pos ≡ ok (u32 (b0 + b1 * 2 ^ 8 + b2 * 2 ^ 16 + b3 * 2 ^ 24), pos + 4)
  unfolding four_bytes
  four_bytes_lem pos b0 b1 b2 b3 rest h =
      let size = drop-length pos script h in
      let w1 : u32 (pos + 1) ≡ pos + 1 = omega arith in
      let w2 : u32 (pos + 2) ≡ pos + 2 = omega arith in
      let w3 : u32 (pos + 3) ≡ pos + 3 = omega arith in
      let w4 : u32 (pos + 4) ≡ pos + 4 = omega arith in
      let inside : leb (length script) (pos + 3) ≡ false = leb-false _ _ (omega arith) in
      let h1 = drop_field pos 1 script (b0 ∷ []) _ h refl in
      let h2 = drop_field pos 2 script (b0 ∷ b1 ∷ []) _ h refl in
      let h3 = drop_field pos 3 script (b0 ∷ b1 ∷ b2 ∷ []) _ h refl in
      rw
        (
          w1,
          w2,
          w3,
          w4,
          inside,
          at_cursor script pos h,
          at_cursor script (pos + 1) h1,
          at_cursor script (pos + 2) h2,
          at_cursor script (pos + 3) h3,
        )
        refl

  -- The operator byte sends the parser on.
  get_data_length_op :
      (pos op : ℕ) (rest : Bytes)
      → drop pos script ≡ ok (op ∷ rest)
      → get_data_length script pos ≡ (
          if leb op 0x4b
          then ok (op, pos + 1)
          else if op == 0x4c
          then one_byte script (pos + 1)
          else if op == 0x4d
          then two_bytes script (pos + 1)
          else if op == 0x4e
          then four_bytes script (pos + 1)
          else err not_push_data)
  get_data_length_op pos op rest h =
      let size = drop-length pos script h in
      let inside : leb (length script) pos ≡ false = leb-false _ _ (omega arith) in
      let wrap : u32 (pos + 1) ≡ pos + 1 = omega arith in
      unfold get_data_length in rw (inside, at_cursor script pos h, wrap) refl

  -- The four forms of the operator.
  read_short :
      (n pos : ℕ) (rest : Bytes)
      → n ≤ 0x4b
      → drop pos script ≡ ok (n % 256 ∷ rest)
      → get_data_length script pos ≡ ok (n, pos + 1)
  read_short n pos rest hn h =
      let small_byte : n % 256 ≡ n = omega arith in
      get_data_length_op pos (n % 256) rest h ∙ rw small_byte (ground arith)

  read_one :
      (n pos : ℕ) (rest : Bytes)
      → n ≤ 0xff
      → drop pos script ≡ ok (0x4c ∷ n % 256 ∷ rest)
      → get_data_length script pos ≡ ok (n, pos + 2)
  read_one n pos rest hn h =
      let byte : n % 256 ≡ n = omega arith in
      let place : pos + 1 + 1 ≡ pos + 2 = omega arith in
      get_data_length_op pos 0x4c _ h
      ∙ one_byte_lem (pos + 1) (n % 256) rest (next_cursor script pos h)
      ∙ rw (byte, place) refl

  read_two :
      (n pos : ℕ) (rest : Bytes)
      → n ≤ 0xffff
      → drop pos script ≡ ok (0x4d ∷ n % 256 ∷ n / 2 ^ 8 % 256 ∷ rest)
      → get_data_length script pos ≡ ok (n, pos + 3)
  read_two n pos rest hn h =
      let value : u32 (n % 256 + n / 2 ^ 8 % 256 * 2 ^ 8) ≡ n = omega arith in
      let place : pos + 1 + 2 ≡ pos + 3 = omega arith in
      get_data_length_op pos 0x4d _ h
      ∙ two_bytes_lem (pos + 1) _ _ rest (next_cursor script pos h)
      ∙ rw (value, place) refl

  read_four :
      (n pos : ℕ) (rest : Bytes)
      → n < 2 ^ 32
      → drop pos script
        ≡ ok (0x4e ∷ n % 256 ∷ n / 2 ^ 8 % 256 ∷ n / 2 ^ 16 % 256 ∷ n / 2 ^ 24 % 256 ∷ rest)
      → get_data_length script pos ≡ ok (n, pos + 5)
  read_four n pos rest hn h =
      let value : u32 (
            n % 256
            + n / 2 ^ 8 % 256 * 2 ^ 8
            + n / 2 ^ 16 % 256 * 2 ^ 16
            + n / 2 ^ 24 % 256 * 2 ^ 24)
          ≡ n =
        omega arith in
      let place : pos + 1 + 4 ≡ pos + 5 = omega arith in
      get_data_length_op pos 0x4e _ h
      ∙ four_bytes_lem (pos + 1) _ _ _ _ rest (next_cursor script pos h)
      ∙ rw (value, place) refl

-- For n below 2^32, wherever the operator that opPushData writes for n stands in a script of less
-- than 2^32 bytes, getDataLength reads n from it and moves to the byte behind it.
pub get_data_length-op_push_data :
    (n pos : ℕ) (script rest : Bytes)
    → n < 2 ^ 32
    → length script < 2 ^ 32
    → drop pos script ≡ ok (op_push_data n ++ rest)
    → get_data_length script pos ≡ ok (n, pos + length (op_push_data n))
unfolding op_push_data
get_data_length-op_push_data n pos script rest hn hs h = elim (Bool-cases (leb n 0x4b)) [
  | inl short ↦ rw short (read_short script hs n pos rest (ground arith) (rw short at h))
  | inr more ↦ elim (Bool-cases (leb n 0xff)) [
    | inl one ↦ rw (more, one) (read_one script hs n pos rest (ground arith) (rw (more, one) at h))
    | inr wide ↦ elim (Bool-cases (leb n 0xffff)) [
      | inl two ↦
          rw (more, wide, two)
            (read_two script hs n pos rest (ground arith) (rw (more, wide, two) at h))
      | inr four ↦
          rw (more, wide, four) (read_four script hs n pos rest hn (rw (more, wide, four) at h))
    ]
  ]
]

pub length-op_push_data : (n : ℕ) → (1 ≤ length (op_push_data n)) × (length (op_push_data n) ≤ 5)
unfolding op_push_data
length-op_push_data n = ground arith

low_operator : (n b : ℕ) (t : Bytes) → op_push_data n ≡ b ∷ t → b ≤ 0x4e
unfolding op_push_data
low_operator n b t e = ground arith

pub op_push_data_head : (n : ℕ) → (b : ℕ) × (t : Bytes) × (op_push_data n ≡ b ∷ t) × (b ≤ 0x4e)
op_push_data_head n = head (op_push_data n) refl
  where
    head :
        (xs : Bytes)
        → op_push_data n ≡ xs
        → (b : ℕ) × (t : Bytes) × (op_push_data n ≡ b ∷ t) × (b ≤ 0x4e)
    head [] e = absurd (omega (arith, length-op_push_data n, ap length e))
    head (b ∷ t) e = (b, t, e, low_operator n b t e)

pub op_push_data_short : (n : ℕ) → n ≤ 0x4b → op_push_data n ≡ n ∷ []
unfolding op_push_data
op_push_data_short n h = let byte : n % 256 ≡ n = omega arith in rw (leb-true n 0x4b h, byte) refl
