-- ===== src/Base58/RoundTrip.antt =====
-- toBase58Check and fromBase58Check of CoinCore/src/Base58Check.h, one behind the other.
use coin_vault.Common.{
  Bytes, length, length-append, length-reverse, drop-append, take-append, AllBytes, append-AllBytes,
  reverse-AllBytes, take_enough, bytes_eq_refl, take, at, ℕ, zero, suc, ◌+◌, ◌<◌, ◌≡◌, refl, sym,
  ap, ◌∙◌, inl, inr, true, Option, some, [], ◌∷◌, ◌++◌, reverse, append_assoc, reverse-reverse,
  arith, ◌==◌, Bool-cases, ltb-false, ==-refl, ==-true, >>=-eq-ok, ok-injective, ok,
}
use mathlib.Core.Path.{subst}
use mathlib.Core.List.{reverse-cons, reverse-append}
use coin_vault.Base58.Numbers.{Bignum, number, EndsNonzero}
use coin_vault.Base58.{
  strchr, count_leading0s, replicate, get_in_base, set_in_base, take_last, drop_last, encode,
  to_base58_check, split_checksum, decode, from_base58_check,
}
use coin_vault.Base58.Alphabet.{IsAlphabet}
use coin_vault.Base58.Digits.{read, Leads, add_digit, get_in_base_lem, set_in_base_lem}

-- Numbers without a largest byte 0 are written in one way.
number-zero : (bs : Bytes) → EndsNonzero bs → number bs ≡ 0 → bs ≡ []
unfolding number
number-zero [] h e = refl
number-zero (b ∷ []) h e = absurd (omega arith)
number-zero (b ∷ c ∷ bs) h e = let f = number-zero (c ∷ bs) h (omega arith) in cc

tail-EndsNonzero : (b : ℕ) (bs : Bytes) → EndsNonzero (b ∷ bs) → EndsNonzero bs
tail-EndsNonzero b [] h = tt
tail-EndsNonzero b (c ∷ bs) h = h

number-injective :
    (bs cs : Bytes)
    → AllBytes bs
    → AllBytes cs
    → EndsNonzero bs
    → EndsNonzero cs
    → number bs ≡ number cs
    → bs ≡ cs
unfolding number
number-injective [] cs hb hc eb ec e = sym (number-zero cs ec (sym e))
number-injective (b ∷ bs) [] hb hc eb ec e = number-zero (b ∷ bs) eb e
number-injective (b ∷ bs) (c ∷ cs) hb hc eb ec e =
    let rest =
      number-injective bs cs hb.1 hc.1 (tail-EndsNonzero b bs eb) (tail-EndsNonzero c cs ec)
        (omega (arith, hb.0, hc.0)) in
    let here : b ≡ c = omega (arith, hb.0, hc.0) in cc

number-append_zeros : (bs : Bytes) (n : ℕ) → number (bs ++ replicate n 0) ≡ number bs
unfolding number replicate
number-append_zeros [] zero = refl
number-append_zeros [] (suc n) = omega (arith, number-append_zeros [] n)
number-append_zeros (b ∷ bs) n = omega (arith, number-append_zeros bs n)

snoc-EndsNonzero : (bs : Bytes) (b : ℕ) → 0 < b → EndsNonzero (bs ++ (b ∷ []))
snoc-EndsNonzero [] b h = h
snoc-EndsNonzero (c ∷ []) b h = h
snoc-EndsNonzero (c ∷ d ∷ bs) b h = snoc-EndsNonzero (d ∷ bs) b h

replicate-snoc : (n : ℕ) → replicate n 0 ++ (0 ∷ []) ≡ replicate (suc n) 0
unfolding replicate
replicate-snoc zero = refl
replicate-snoc (suc n) = ap (λ (bs : Bytes). 0 ∷ bs) (replicate-snoc n)

reverse-replicate : (n : ℕ) → reverse (replicate n 0) ≡ replicate n 0
unfolding replicate
reverse-replicate zero = refl
reverse-replicate (suc n) =
    reverse-cons 0 (replicate n 0)
    ∙ ap (λ (bs : Bytes). bs ++ (0 ∷ [])) (reverse-replicate n)
    ∙ replicate-snoc n

count-replicate :
    (c z : ℕ) (s : Bytes) → count_leading0s c (replicate z c ++ s) ≡ z + count_leading0s c s
unfolding count_leading0s replicate
count-replicate c zero s = omega arith
count-replicate c (suc z) s = rw ==-refl (omega (arith, count-replicate c z s))

count-Leads : (z : ℕ) (s : Bytes) → Leads z s → count_leading0s z s ≡ 0
unfolding count_leading0s
count-Leads z [] h = absurd h
count-Leads z (c ∷ s) h = rw h refl

count_all : (c z : ℕ) (s : Bytes) → Leads c s → count_leading0s c (replicate z c ++ s) ≡ z
count_all c z s leads = omega (arith, count-replicate c z s, count-Leads c s leads)

read-replicate :
    (chars : Bytes) (c z : ℕ) (s : Bytes)
    → strchr chars c ≡ some 0
    → read chars (replicate z c ++ s) 0 ≡ read chars s 0
unfolding read replicate add_digit
read-replicate chars c zero s e = refl
read-replicate chars c (suc z) s e =
    ap (λ (o : Option ℕ). read chars (replicate z c ++ s) (add_digit 0 o)) e
    ∙ read-replicate chars c z s e

take_last-append :
    (front last : Bytes) (n : ℕ) → length last ≡ n → take_last n (front ++ last) ≡ ok last
unfolding take_last
take_last-append front last n size =
    rw
      (
        reverse-append front last,
        take-append n (reverse last) (reverse front) (length-reverse last ∙ size),
        reverse-reverse last,
      )
      refl

drop_last-append :
    (front last : Bytes) (n : ℕ) → length last ≡ n → drop_last n (front ++ last) ≡ ok front
unfolding drop_last
drop_last-append front last n size =
    rw
      (
        reverse-append front last,
        drop-append n (reverse last) (reverse front) (length-reverse last ∙ size),
        reverse-reverse front,
      )
      refl

-- Bytes that are not all 0, behind their leading zeros.
split_zeros :
    (bs : Bytes)
    → count_leading0s 0 bs < length bs
    → (b : ℕ) × (rest : Bytes) × (0 < b) × (bs ≡ replicate (count_leading0s 0 bs) 0 ++ (b ∷ rest))
unfolding count_leading0s replicate
split_zeros [] h = absurd (omega arith)
split_zeros (x ∷ xs) h = elim (Bool-cases (x == 0)) [
  | inl e ↦
      let shorter : count_leading0s 0 xs < length xs = ground (arith, h) in
      let (b, rest, pos, same) = split_zeros xs shorter in
      let count : count_leading0s 0 (x ∷ xs) ≡ suc (count_leading0s 0 xs) = rw e refl in
      let split : x ∷ xs ≡ replicate (suc (count_leading0s 0 xs)) 0 ++ (b ∷ rest) =
        ap (λ (y : ℕ). y ∷ xs) (==-true x 0 e) ∙ ap (λ (ys : Bytes). 0 ∷ ys) same in
      (b, rest, pos, split ∙ ap (λ (n : ℕ). replicate n 0 ++ (b ∷ rest)) (sym count))
  | inr e ↦ (x, xs, ground arith, rw e refl)
]

number_positive : (bs : Bytes) (b : ℕ) → 0 < b → 0 < number (bs ++ (b ∷ []))
unfolding number
number_positive [] b h = omega arith
number_positive (c ∷ bs) b h = omega (arith, number_positive bs b h)

take-AllBytes : (n : ℕ) (xs : Bytes) {ys : Bytes} → AllBytes xs → take n xs ≡ ok ys → AllBytes ys
unfolding take
take-AllBytes zero xs all e = rw (← ok-injective e) tt
take-AllBytes (suc n) [] all e = cc
take-AllBytes (suc n) (x ∷ xs) all e =
    let (ys, taken, result) = >>=-eq-ok (take n xs) (λ (ys : Bytes). ok (x ∷ ys)) e in
    rw (← ok-injective result) (all.0, take-AllBytes n xs all.1 taken)

suffix-AllBytes : (n : ℕ) (bs : Bytes) → AllBytes (replicate n 0 ++ bs) → AllBytes bs
unfolding replicate
suffix-AllBytes zero bs all = all
suffix-AllBytes (suc n) bs all = suffix-AllBytes n bs all.1

-- The hash has 32 bytes.
abbrev pub IsDigest : (Bytes → Bytes) → Type 0
IsDigest sha256_2 = (bytes : Bytes) → (length (sha256_2 bytes) ≡ 32) × AllBytes (sha256_2 bytes)

module _ (bignum : Bignum) (sha256_2 : Bytes → Bytes) (chars : Bytes) where
  open bignum use {value, from_bin, to_bin}

  -- The number of bytes with leading zeros, as the vault of digits sees it.
  value-from_bin_zeros :
      (z b : ℕ) (rest : Bytes)
      → AllBytes (replicate z 0 ++ (b ∷ rest))
      → value (from_bin (replicate z 0 ++ (b ∷ rest))) ≡ number (reverse (b ∷ rest))
  value-from_bin_zeros z b rest all =
      bignum.value-from_bin _ all
      ∙ ap number (reverse-append (replicate z 0) (b ∷ rest))
      ∙ ap (λ (bs : Bytes). number (reverse (b ∷ rest) ++ bs)) (reverse-replicate z)
      ∙ number-append_zeros (reverse (b ∷ rest)) z

  -- A number is written back as its bytes without leading zeros.
  to_bin_lem :
      (n : bignum.Bn) (b : ℕ) (rest : Bytes)
      → 0 < b
      → AllBytes (b ∷ rest)
      → value n ≡ number (reverse (b ∷ rest))
      → to_bin n ≡ b ∷ rest
  to_bin_lem n b rest pos all v =
      let ends : EndsNonzero (reverse (b ∷ rest)) =
        rw (reverse-cons b rest) (snoc-EndsNonzero (reverse rest) b pos) in
      let same =
        number-injective (reverse (to_bin n)) (reverse (b ∷ rest))
          (reverse-AllBytes (to_bin n) (bignum.to_bin-AllBytes n)) (reverse-AllBytes (b ∷ rest) all)
          (bignum.to_bin-EndsNonzero n) ends (bignum.number-to_bin n ∙ v) in
      sym (reverse-reverse (to_bin n)) ∙ ap reverse same ∙ reverse-reverse (b ∷ rest)

  -- The checksum is found behind the bytes, and the leading zeros are put back.
  split_checksum_lem :
      (z z' b : ℕ) (rest checksum s : Bytes)
      → length checksum ≡ 4
      → take 4 (sha256_2 (replicate z 0 ++ (b ∷ rest))) ≡ ok checksum
      → at chars 0 ≡ ok z'
      → Leads z' s
      → split_checksum bignum sha256_2 chars (replicate z z' ++ s) ((b ∷ rest) ++ checksum)
        ≡ ok (replicate z 0 ++ (b ∷ rest), true)
  unfolding split_checksum
  split_checksum_lem z z' b rest checksum s four hashed zero_at leads =
      rw
        (
          take_last-append (b ∷ rest) checksum 4 four,
          drop_last-append (b ∷ rest) checksum 4 four,
          zero_at,
          count_all z' z s leads,
          hashed,
          bytes_eq_refl checksum,
        )
        refl

  encode_zeros :
      (z z' b : ℕ) (rest checksum s : Bytes)
      → 0 < b
      → take 4 (sha256_2 (replicate z 0 ++ (b ∷ rest))) ≡ ok checksum
      → at chars 0 ≡ ok z'
      → get_in_base bignum 58 chars (from_bin (replicate z 0 ++ ((b ∷ rest) ++ checksum))) ≡ ok s
      → encode bignum sha256_2 chars (replicate z 0 ++ (b ∷ rest)) ≡ ok (replicate z z' ++ s)
  unfolding encode
  encode_zeros z z' b rest checksum s pos hashed zero_at written =
      rw
        (
          hashed,
          append_assoc (replicate z 0) (b ∷ rest) checksum,
          written,
          zero_at,
          count_all 0 z ((b ∷ rest) ++ checksum) (ground arith),
        )
        refl

  decode_zeros :
      (z z' b : ℕ) (rest checksum s : Bytes)
      → length checksum ≡ 4
      → take 4 (sha256_2 (replicate z 0 ++ (b ∷ rest))) ≡ ok checksum
      → at chars 0 ≡ ok z'
      → Leads z' s
      → to_bin (set_in_base bignum 58 chars (replicate z z' ++ s)) ≡ (b ∷ rest) ++ checksum
      → decode bignum sha256_2 chars (replicate z z' ++ s) ≡ ok (some (replicate z 0 ++ (b ∷ rest)))
  unfolding decode
  decode_zeros z z' b rest checksum s four hashed zero_at leads back =
      let size = length-append (b ∷ rest) checksum in
      rw
        (
          back,
          ltb-false (length ((b ∷ rest) ++ checksum)) 4 (omega (arith, size)),
          split_checksum_lem z z' b rest checksum s four hashed zero_at leads,
        )
        refl

  -- What is encoded is decoded again.
  decode-encode_zeros :
      (z b : ℕ) (rest : Bytes)
      → IsAlphabet chars
      → IsDigest sha256_2
      → AllBytes (replicate z 0 ++ (b ∷ rest))
      → 0 < b
      → (s : Bytes) × (encode bignum sha256_2 chars (replicate z 0 ++ (b ∷ rest)) ≡ ok s)
        × (decode bignum sha256_2 chars s ≡ ok (some (replicate z 0 ++ (b ∷ rest))))
  decode-encode_zeros z b rest alphabet digest all pos =
      let bytes = replicate z 0 ++ (b ∷ rest) in
      let (size, hash_bytes) = digest bytes in
      let (checksum, hashed, four) = take_enough 4 (sha256_2 bytes) (omega (arith, size)) in
      let check_bytes = take-AllBytes 4 (sha256_2 bytes) hash_bytes hashed in
      let checked = (b ∷ rest) ++ checksum in
      let joined : bytes ++ checksum ≡ replicate z 0 ++ checked =
        append_assoc (replicate z 0) (b ∷ rest) checksum in
      let all_bytes : AllBytes (replicate z 0 ++ checked) =
        rw joined at (append-AllBytes bytes checksum all check_bytes) in
      let num = from_bin (replicate z 0 ++ checked) in
      let v = value-from_bin_zeros z b (rest ++ checksum) all_bytes in
      let (z', zero_at, zero_found) = alphabet.1 0 (omega arith) in
      let (s, written, read_s, leads) = get_in_base_lem bignum chars alphabet num z' zero_at in
      let large : 0 < value num =
        rw (v, reverse-cons b (rest ++ checksum))
          (number_positive (reverse (rest ++ checksum)) b pos) in
      let n = set_in_base bignum 58 chars (replicate z z' ++ s) in
      let v' : value n ≡ number (reverse checked) =
        set_in_base_lem bignum chars alphabet (replicate z z' ++ s)
        ∙ read-replicate chars z' z s zero_found
        ∙ read_s
        ∙ v in
      let back = to_bin_lem n b (rest ++ checksum) pos (suffix-AllBytes z checked all_bytes) v' in
      (
        replicate z z' ++ s,
        encode_zeros z z' b rest checksum s pos hashed zero_at written,
        decode_zeros z z' b rest checksum s four hashed zero_at (leads large) back,
      )

  read_back :
      (s : Bytes) {payload : Bytes} {version : ℕ}
      → decode bignum sha256_2 chars s ≡ ok (some (version ∷ payload))
      → from_base58_check bignum sha256_2 chars s ≡ ok (some (payload, version))
  unfolding from_base58_check
  read_back s d = rw d refl

  -- For big numbers with their documented values, an alphabet of 58 different characters, a hash
  -- of 32 bytes, and a version byte and a payload of which not all bytes are 0, toBase58Check
  -- succeeds, and fromBase58Check accepts the string that it gives and returns the same payload
  -- and version, leading zeros included.
  pub from_base58_check-to_base58_check :
      IsAlphabet chars
      → IsDigest sha256_2
      → (payload : Bytes) (version : ℕ) → AllBytes (version ∷ payload)
      → count_leading0s 0 (version ∷ payload) < length (version ∷ payload)
      → (s : Bytes) × (to_base58_check bignum sha256_2 chars payload version ≡ ok s)
        × (from_base58_check bignum sha256_2 chars s ≡ ok (some (payload, version)))
  unfolding to_base58_check
  from_base58_check-to_base58_check alphabet digest payload version all has_byte =
      let (b, rest, pos, same) = split_zeros (version ∷ payload) has_byte in
      let z = count_leading0s 0 (version ∷ payload) in
      let (s, e, d) =
        decode-encode_zeros z b rest alphabet digest (subst (λ (bs : Bytes). AllBytes bs) same all)
          pos in
      let d' : decode bignum sha256_2 chars s ≡ ok (some (version ∷ payload)) =
        d ∙ ap (λ (bs : Bytes). ok (some bs)) (sym same) in
      (s, ap (λ (bs : Bytes). encode bignum sha256_2 chars bs) same ∙ e, read_back s d')
