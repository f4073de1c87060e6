-- ===== src/Script/Payee.antt =====
-- getScriptPubKeyPayee of CoinQ_script.cpp: the kind of an output script, and what it pays to.
use coin_vault.Common.{
  Bytes, length, u32, slice, at, ℕ, ◌+◌, ◌*◌, Bool, true, false, ◌&&◌, List, [], ◌∷◌, ◌++◌, ◌==◌,
  if◌then◌else◌, Result, ◌>>=◌, ◌>>◌, ok,
}
use coin_vault.Script.PushData.{get_data_length, get_data_length-op_push_data, op_push_data}
pub mod Kinds

pub data ScriptType : Type 0 where
  unknown_type empty_script pay_to_pubkey pay_to_pubkey_hash pay_to_script_hash : ScriptType

abbrev pub Payee : Type 0
Payee = ScriptType × Bytes

-- `script[i] == b && script[j] == c && …`, from left to right.
unfoldable pub holds_at : Bytes → List (ℕ × ℕ) → Result Bool
unfolding at
holds_at script [] = ok true
holds_at script ((i, b) ∷ tests) = do
  x ← at script i
  if x == b then holds_at script tests else ok false

unfoldable pub is_pubkey_hash : Bytes → Result Bool
unfolding holds_at
is_pubkey_hash script =
    if length script == 25
    then holds_at script ((0, 0x76) ∷ (1, 0xa9) ∷ (2, 0x14) ∷ (23, 0x88) ∷ (24, 0xac) ∷ [])
    else ok false

unfoldable pub is_script_hash : Bytes → Result Bool
unfolding holds_at
is_script_hash script =
    if length script == 23
    then holds_at script ((0, 0xa9) ∷ (1, 0x14) ∷ (22, 0x87) ∷ [])
    else ok false

-- The test for a public key, in `uint` arithmetic. Where the script has the right size, it reads the
-- byte behind the script, which is a fault here and an arbitrary byte in the program.
unfoldable pub is_pubkey : Bytes → ℕ → ℕ → Result Bool
unfolding holds_at
is_pubkey script pos data_length =
    let last = u32 (pos + data_length + 1) in
    if last == length script then holds_at script ((last, 0xac) ∷ []) else ok false

abbrev empty_or_unknown : Bytes → Payee
empty_or_unknown script = if length script == 0 then (empty_script, []) else (unknown_type, [])

unfoldable pub pubkey_payee : Bytes → Result Payee
unfolding get_data_length is_pubkey slice
pubkey_payee script = do
  (data_length, pos) ← get_data_length script 0
  pays ← is_pubkey script pos data_length
  if pays
      then (slice script pos data_length >>= λ key. ok (pay_to_pubkey, key))
      else ok (empty_or_unknown script)

unfoldable pub script_hash_payee : Bytes → Result Payee
unfolding is_script_hash pubkey_payee slice
script_hash_payee script = do
  pays ← is_script_hash script
  if pays
      then (slice script 2 20 >>= λ hash. ok (pay_to_script_hash, hash))
      else pubkey_payee script

unfoldable pub get_script_pub_key_payee : Bytes → Result Payee
unfolding is_pubkey_hash script_hash_payee slice
get_script_pub_key_payee script = do
  pays ← is_pubkey_hash script
  if pays
      then (slice script 3 20 >>= λ hash. ok (pay_to_pubkey_hash, hash))
      else script_hash_payee script

-- The scripts that pay to a hash of 20 bytes.
abbrev pub pubkey_hash_script : Bytes → Bytes
pubkey_hash_script hash = 0x76 ∷ 0xa9 ∷ 0x14 ∷ (hash ++ (0x88 ∷ 0xac ∷ []))

abbrev pub script_hash_script : Bytes → Bytes
script_hash_script hash = 0xa9 ∷ 0x14 ∷ (hash ++ (0x87 ∷ []))
