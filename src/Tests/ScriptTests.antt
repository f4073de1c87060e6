-- ===== src/Tests/ScriptTests.antt =====
-- Scripts of class Script and output scripts, with short keys and a toy hash.
use coin_vault.Common.{
  Bytes, length, drop, ◌+◌, ◌*◌, ◌≡◌, refl, true, List, [], ◌∷◌, ◌++◌, arith, fault, ok,
}
use coin_vault.Script.PushData.{op_push_data, get_data_length, get_data_length-op_push_data}
use coin_vault.Script.Payee.{get_script_pub_key_payee}
use coin_vault.Script.Payee.Kinds.{payee_of_pubkey_script}
use coin_vault.Script.Object.{Script, pay_to_multisig_script_hash, edit, make, txinscript}
use coin_vault.Script.Object.Parse.{parse}
use coin_vault.Script.Object.RoundTrip.{parse-txinscript}
use coin_vault.Script.Object.Signatures.{add_sig, mergesigs, sigs_needed}
use coin_vault.Script.Object.Signatures.Laws.{present, sigs_needed_lem, mergesigs_lem}
use coin_vault.Script.Object.Signatures.Added.{Placed, add_sig_lem}

abbrev toy_hash : Bytes → Bytes
toy_hash xs = length xs ∷ []

abbrev two_keys : List Bytes
two_keys = (2 ∷ 7 ∷ []) ∷ (3 ∷ 8 ∷ []) ∷ []

-- Two keys of which one has to sign, and its signatures.
abbrev one_of_two : List Bytes → Script
one_of_two sigs = record {
  kind = pay_to_multisig_script_hash;
  minsigs = 1;
  pubkeys = two_keys;
  sigs = sigs;
  redeem_script = 0x51 ∷ 2 ∷ 2 ∷ 7 ∷ 2 ∷ 3 ∷ 8 ∷ 0x52 ∷ 0xae ∷ [];
  hash = 9 ∷ [];
}

abbrev unsigned : Script
unsigned = one_of_two ([] ∷ [] ∷ [])

abbrev signed : Script
signed = one_of_two ([] ∷ (5 ∷ []) ∷ [])

made : make toy_hash pay_to_multisig_script_hash 1 two_keys [] ≡ ok unsigned
unfolding make
made = refl

abbrev unsigned_bytes : Bytes
unsigned_bytes = 0 ∷ 0 ∷ 0 ∷ 9 ∷ 0x51 ∷ 2 ∷ 2 ∷ 7 ∷ 2 ∷ 3 ∷ 8 ∷ 0x52 ∷ 0xae ∷ []

written : txinscript edit unsigned ≡ ok unsigned_bytes
unfolding txinscript
written = refl

parse-txinscript_example : parse toy_hash 0 unsigned_bytes ≡ ok unsigned
parse-txinscript_example =
    parse-txinscript toy_hash 0 1 two_keys [] unsigned unsigned_bytes made
      (omega arith, (omega arith, tt)) written (omega arith)

-- The second key signs.
key_signs : add_sig unsigned (3 ∷ 8 ∷ []) (5 ∷ []) ≡ ok (signed, true)
unfolding add_sig
key_signs = refl

add_sig_lem_example :
    (signed ≡ record unsigned { sigs = signed.sigs })
    × Placed 1 two_keys (3 ∷ 8 ∷ []) (5 ∷ []) 0 0 unsigned.sigs signed.sigs true
    × (present signed.sigs ≡ present unsigned.sigs + 1)
add_sig_lem_example = add_sig_lem unsigned (3 ∷ 8 ∷ []) 5 [] signed true key_signs

merges : mergesigs unsigned signed ≡ ok (signed, 1)
unfolding mergesigs
merges = refl

mergesigs_lem_example :
    (present signed.sigs ≡ present unsigned.sigs + 1) × (mergesigs signed signed ≡ ok (signed, 0))
mergesigs_lem_example = mergesigs_lem unsigned signed signed 1 merges

sigs_needed_lem_example : sigs_needed unsigned ≡ 1
sigs_needed_lem_example = sigs_needed_lem unsigned (omega arith) (omega arith)

pushed : op_push_data 3 ++ (7 ∷ []) ≡ 3 ∷ 7 ∷ []
unfolding op_push_data
pushed = refl

get_data_length-op_push_data_example :
    get_data_length (op_push_data 300 ++ (7 ∷ [])) 0 ≡ ok (300, 0 + length (op_push_data 300))
unfolding op_push_data coin_vault.Common.drop
get_data_length-op_push_data_example =
    get_data_length-op_push_data 300 0 (op_push_data 300 ++ (7 ∷ [])) (7 ∷ []) (omega arith)
      (omega arith) refl

abbrev twenty : Bytes
twenty =
    1 ∷ 2 ∷ 3 ∷ 4 ∷ 5 ∷ 6 ∷ 7 ∷ 8 ∷ 9 ∷ 10 ∷ 11 ∷ 12 ∷ 13 ∷ 14 ∷ 15 ∷ 16 ∷ 17 ∷ 18 ∷ 19 ∷ 20 ∷ []

payee_of_pubkey_script_example :
    get_script_pub_key_payee (op_push_data 2 ++ (7 ∷ 8 ∷ 0xac ∷ [])) ≡ fault
payee_of_pubkey_script_example = payee_of_pubkey_script (7 ∷ 8 ∷ []) (omega arith)
