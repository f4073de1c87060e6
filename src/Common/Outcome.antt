-- ===== src/Common/Outcome.antt =====
-- The outcome of a C++ call: a value, a thrown exception, or undefined behaviour.
use mathlib.Core.Path.{◌≡◌, refl}
use mathlib.Core.Bool.{Bool, true, false}

-- The exceptions that the modelled code throws, named for their messages.
pub data Error : Type 0 where
  too_small wrong_length missing_field : Error
  zero_count invalid_tree invalid_root empty_leaves : Error
  pos_past_end not_push_data push_exceeds_data : Error
  invalid_parameters redeem_too_short invalid_minimum premature_end : Error
  invalid_count minimum_exceeds_keys invalid_termination invalid_op too_many_keys : Error
  different_type different_minimum different_keys different_sig_count : Error
  bad_checksum bad_version bad_hash_length : Error
  not_empty no_genesis no_parent hash_too_big remove_genesis not_found out_of_range : Error
  mantissa_too_large exponent_too_large index_out_of_range : Error
  null_script invalid_name not_private is_private_locked is_chain_code_locked : Error
  too_many_keychains minimum_exceeds_keychains no_signature_required : Error
  reserved_index zero_index out_of_scripts insufficient_funds : Error
  keychain_chain_code_locked invalid_merkle_block outpoint_out_of_range tx_not_found : Error
  txs_exceed_block merkle_root_mismatch : Error

-- `fault` stands for undefined behaviour, such as a read past the end of a vector. `stuck` is no
-- outcome of the code: a loop of the model ran out of fuel.
pub data Result {ℓ} (A : Type ℓ) : Type ℓ where
  fault stuck : Result A
  err : Error → Result A
  ok : A → Result A

infixl 5 ◌>>=◌ ◌>>◌
-- A call whose value the next one takes.
abbrev pub ◌>>=◌ {ℓ κ} :
    {Value : Type ℓ} {Next : Type κ} → Result Value → (Value → Result Next) → Result Next
fault >>= next = fault
stuck >>= next = stuck
err thrown >>= next = err thrown
ok value >>= next = next value

-- A call for its effects only, and the next one.
abbrev pub ◌>>◌ {ℓ} : {Next : Type ℓ} → Result (Unit {0}) → Result Next → Result Next
first >> next = first >>= λ done. next

-- `if (test) throw e;`
abbrev pub throw_if : Bool → Error → Result (Unit {0})
throw_if true e = err e
throw_if false e = ok tt

-- When two calls in a row give a value, so did the first.
pub >>=-eq-ok {ℓ κ} :
    {Value : Type ℓ} {Next : Type κ} (call : Result Value) (next : Value → Result Next)
    {last : Next}
    → (call >>= next) ≡ ok last
    → (value : Value) × (call ≡ ok value) × (next value ≡ ok last)
>>=-eq-ok fault next returns = cc
>>=-eq-ok stuck next returns = cc
>>=-eq-ok (err thrown) next returns = cc
>>=-eq-ok (ok value) next returns = (value, refl, returns)

pub ok-injective {ℓ} : {A : Type ℓ} {x y : A} → ok x ≡ ok y → x ≡ y
ok-injective e = cc
