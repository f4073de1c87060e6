-- ===== src/Wire/Transaction/Scripts.antt =====
-- The members of class Transaction that change the scripts of its inputs, and getTotalSent.
use coin_vault.Common.{
  Bytes, length, u64, ℕ, zero, suc, ◌+◌, ◌-◌, ◌^◌, ◌<◌, ◌≡◌, refl, ap, List, [], ◌∷◌, arith, ltb,
  ltb-false, Result, ◌>>=◌, ◌>>◌, throw_if, index_out_of_range, fault, ok,
}
use coin_vault.Wire.TxIn.{TxIn}
use coin_vault.Wire.TxOut.{TxOut}
use coin_vault.Wire.Transaction.{Transaction}

unfoldable pub clear_inputs : List TxIn → List TxIn
clear_inputs [] = []
clear_inputs (i ∷ is) = record i { script_sig = [] } ∷ clear_inputs is

unfoldable pub clear_script_sigs : Transaction → Transaction
unfolding clear_inputs
clear_script_sigs t = record t { inputs = clear_inputs t.inputs }

-- `inputs[index].scriptSig = scriptSig`
unfoldable pub put_script_sig : ℕ → Bytes → List TxIn → Result (List TxIn)
put_script_sig index script [] = fault
put_script_sig zero script (i ∷ is) = ok (record i { script_sig = script } ∷ is)
put_script_sig (suc index) script (i ∷ is) =
    put_script_sig index script is >>= λ changed. ok (i ∷ changed)

-- `inputs.size()-1` is in `std::size_t`.
unfoldable pub set_script_sig : ℕ → Bytes → Transaction → Result Transaction
unfolding put_script_sig
set_script_sig index script t = do
  throw_if (ltb (u64 (length t.inputs + (2 ^ 64 - 1))) index) index_out_of_range
  inputs ← put_script_sig index script t.inputs
  ok (record t { inputs = inputs })

-- When a transaction has no inputs, setScriptSig accepts every 32-bit index and writes outside the
-- vector of inputs.
pub set_script_sig-fault :
    (index : ℕ) (script : Bytes) (t : Transaction)
    → index < 2 ^ 32
    → t.inputs ≡ []
    → set_script_sig index script t ≡ fault
unfolding set_script_sig
set_script_sig-fault index script t small none_there =
    rw (none_there, ltb-false (2 ^ 64 - 1) index (omega arith)) refl

clear_inputs-put_script_sig :
    (index : ℕ) (script : Bytes) (is : List TxIn)
    → index < length is
    → (changed : List TxIn) × (put_script_sig index script is ≡ ok changed)
      × (clear_inputs changed ≡ clear_inputs is)
unfolding put_script_sig clear_inputs
clear_inputs-put_script_sig index script [] h = absurd (omega arith)
clear_inputs-put_script_sig zero script (i ∷ is) h =
    (record i { script_sig = script } ∷ is, refl, refl)
clear_inputs-put_script_sig (suc index) script (i ∷ is) h =
    let (changed, e, same) = clear_inputs-put_script_sig index script is (omega arith) in
    (i ∷ changed, rw e refl, ap (λ others. record i { script_sig = [] } ∷ others) same)

-- For an index below the number of inputs, which is below 2^64, setScriptSig succeeds and changes
-- nothing but scripts of inputs: after clearScriptSigs the transaction is the same as if only
-- clearScriptSigs had been called.
clear_script_sigs-set_script_sig :
    (index : ℕ) (script : Bytes) (t : Transaction)
    → index < length t.inputs
    → length t.inputs < 2 ^ 64
    → (set_script_sig index script t >>= λ changed. ok (clear_script_sigs changed))
      ≡ ok (clear_script_sigs t)
unfolding set_script_sig clear_script_sigs
clear_script_sigs-set_script_sig index script t h small =
    let (changed, e, same) = clear_inputs-put_script_sig index script t.inputs h in
    let last : u64 (length t.inputs + (2 ^ 64 - 1)) ≡ length t.inputs - 1 = omega arith in
    rw (last, ltb-false (length t.inputs - 1) index (omega arith), e, same) refl

-- `totalSent` is a uint64_t.
unfoldable pub total_from : ℕ → List TxOut → ℕ
total_from total [] = total
total_from total (o ∷ os) = total_from (u64 (total + o.value)) os

unfoldable pub get_total_sent : Transaction → ℕ
unfolding total_from
get_total_sent t = total_from 0 t.outputs
