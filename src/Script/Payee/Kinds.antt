-- ===== src/Script/Payee/Kinds.antt =====
-- Which scripts getScriptPubKeyPayee recognises.
use native.Mathlib.Nat.{zero-add, suc-add, le_refl}
use coin_vault.Common.{
  Bytes, length, length-append, take-append, drop_zero, u32, slice, at, ℕ, zero, suc, ◌+◌, ◌^◌, ◌≤◌,
  ◌<◌, ◌≡◌, refl, true, false, List, [], ◌∷◌, ◌++◌, arith, ==-refl, fault, ok,
}
use coin_vault.Script.PushData.{
  get_data_length, get_data_length-op_push_data, op_push_data_head, length-op_push_data,
  op_push_data,
}
use coin_vault.Script.Payee.{
  pay_to_pubkey_hash, pay_to_script_hash, holds_at, is_pubkey_hash, is_script_hash, is_pubkey,
  pubkey_payee, script_hash_payee, get_script_pub_key_payee, pubkey_hash_script, script_hash_script,
}

at-append {ℓ} :
    {A : Type ℓ} (n : ℕ) (xs ys : List A)
    → length xs ≡ n
    → (i : ℕ) → at (xs ++ ys) (n + i) ≡ at ys i
unfolding at
at-append zero [] ys e i = rw zero-add refl
at-append zero (x ∷ xs) ys e i = absurd (omega arith)
at-append (suc n) [] ys e i = absurd (omega arith)
at-append (suc n) (x ∷ xs) ys e i = rw suc-add (at-append n xs ys (omega arith) i)

-- Reading at the end of a script, or behind it, leaves it.
at_end {ℓ} : {A : Type ℓ} (n : ℕ) (xs : List A) → length xs ≤ n → at xs n ≡ fault
unfolding at
at_end n [] h = refl
at_end zero (x ∷ xs) h = absurd (omega arith)
at_end (suc n) (x ∷ xs) h = at_end n xs (omega arith)

-- For every hash of 20 bytes, getScriptPubKeyPayee classifies the output script that pays to the
-- hash of a public key as such and returns the hash.
payee-pubkey_hash_script :
    (hash : Bytes)
    → length hash ≡ 20
    → get_script_pub_key_payee (pubkey_hash_script hash) ≡ ok (pay_to_pubkey_hash, hash)
payee-pubkey_hash_script hash e = unfold get_script_pub_key_payee in rw (recognised, found) refl
  where
    script : Bytes
    script = pubkey_hash_script hash

    tail : Bytes
    tail = 0x88 ∷ 0xac ∷ []

    size : length (hash ++ tail) ≡ 22
    size = omega (arith, length-append hash tail)

    recognised : is_pubkey_hash script ≡ ok true
    recognised =
        unfold is_pubkey_hash at in
        rw (size, at-append 20 hash tail e 0, at-append 20 hash tail e 1) refl

    found : slice script 3 20 ≡ ok hash
    found = unfold slice in take-append 20 hash tail e

-- For every hash of 20 bytes, getScriptPubKeyPayee classifies the output script that pays to the
-- hash of a script as such and returns the hash.
payee-script_hash_script :
    (hash : Bytes)
    → length hash ≡ 20
    → get_script_pub_key_payee (script_hash_script hash) ≡ ok (pay_to_script_hash, hash)
payee-script_hash_script hash e =
    unfold get_script_pub_key_payee script_hash_payee in rw (other, recognised, found) refl
  where
    script : Bytes
    script = script_hash_script hash

    tail : Bytes
    tail = 0x87 ∷ []

    size : length (hash ++ tail) ≡ 21
    size = omega (arith, length-append hash tail)

    other : is_pubkey_hash script ≡ ok false
    other = unfold is_pubkey_hash in rw size refl

    recognised : is_script_hash script ≡ ok true
    recognised = unfold is_script_hash at in rw (size, at-append 20 hash tail e 0) refl

    found : slice script 2 20 ≡ ok hash
    found = unfold slice in take-append 20 hash tail e

-- A script that begins with a push operator is none of the two kinds with a hash.
other_kinds :
    (b : ℕ) (xs : Bytes)
    → b ≤ 0x4e
    → (is_pubkey_hash (b ∷ xs) ≡ ok false) × (is_script_hash (b ∷ xs) ≡ ok false)
unfolding is_pubkey_hash is_script_hash holds_at at
other_kinds b xs low = (ground arith, ground arith)

push_kinds :
    (n : ℕ) (rest : Bytes)
    → (is_pubkey_hash (op_push_data n ++ rest) ≡ ok false)
      × (is_script_hash (op_push_data n ++ rest) ≡ ok false)
push_kinds n rest = let (b, t, e, low) = op_push_data_head n in rw e (other_kinds b (t ++ rest) low)

is_pubkey_end :
    (script : Bytes) (pos n : ℕ)
    → u32 (pos + n + 1) ≡ length script
    → is_pubkey script pos n ≡ fault
unfolding is_pubkey holds_at
is_pubkey_end script pos n e =
    rw (e, ==-refl (length script), at_end (length script) script (le_refl (length script))) refl

-- For every key more than 16 bytes shorter than 2^32, getScriptPubKeyPayee reads behind the end of
-- the output script that pushes the key and checks its signature.
pub payee_of_pubkey_script :
    (key : Bytes)
    → length key + 16 < 2 ^ 32
    → get_script_pub_key_payee (op_push_data (length key) ++ (key ++ (0xac ∷ []))) ≡ fault
payee_of_pubkey_script key small =
    let (no_hash, no_script) = push_kinds n (key ++ (0xac ∷ [])) in
    unfold get_script_pub_key_payee script_hash_payee pubkey_payee in
    rw (no_hash, no_script, read, behind) refl
  where
    n : ℕ
    n = length key

    script : Bytes
    script = op_push_data n ++ (key ++ (0xac ∷ []))

    m : ℕ
    m = length (op_push_data n)

    size : length script ≡ m + (n + 1)
    size =
        omega (
          arith,
          length-append (op_push_data n) (key ++ (0xac ∷ [])),
          length-append key (0xac ∷ []),
        )

    read : get_data_length script 0 ≡ ok (n, 0 + m)
    read =
        get_data_length-op_push_data n 0 script (key ++ (0xac ∷ [])) (omega arith)
          (omega (arith, size, length-op_push_data n)) (drop_zero script)

    last : u32 (0 + m + n + 1) ≡ length script
    last = omega (arith, size, length-op_push_data n)

    behind : is_pubkey script (0 + m) n ≡ fault
    behind = is_pubkey_end script (0 + m) n last
