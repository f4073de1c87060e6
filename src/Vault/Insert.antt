-- ===== src/Vault/Insert.antt =====
-- The first half of insertTx_unwrapped of CoinDB/src/Vault.cpp: a transaction arrives of which the
-- vault stores one with the same unsigned hash.
use coin_vault.Common.{
  Bytes, ℕ, ◌*◌, Bool, true, false, not, ◌&&◌, ◌||◌, List, [], ◌∷◌, ltb, if◌then◌else◌, Result,
  ◌>>=◌, ◌>>◌, fault, ok,
}
use coin_vault.Script.Object.{txinscript, edit}
use coin_vault.Script.Object.Parse.{parse}
use coin_vault.Script.Object.Signatures.{mergesigs}
use coin_vault.Vault.Inputs.{TxIn}
use coin_vault.Vault.Tx.{Tx, no_status, unsigned, status_code, same_status, update_status}
pub mod Scripts
pub mod Laws

-- `txin->script(txins[i++]->script())` for each stored input.
unfoldable pub copy_scripts : List TxIn → List TxIn → Result (List TxIn)
copy_scripts [] others = ok []
copy_scripts (t ∷ ts) [] = fault
copy_scripts (t ∷ ts) (other ∷ others) = do
  later ← copy_scripts ts others
  ok (record t { script = other.script } ∷ later)

module _ (hash160 : Bytes → Bytes) (garbage : ℕ) where
  unfoldable pub merge_script : Bytes → Bytes → Result (Bytes × Bool)
  unfolding parse mergesigs txinscript
  merge_script script other = do
    stored ← parse hash160 garbage script
    received ← parse hash160 garbage other
    (merged, added) ← mergesigs stored received
    if ltb 0 added
        then (txinscript edit merged >>= λ written. ok (written, true))
        else ok (script, false)

  -- The loop that adds the signatures of the inputs received; the flag tells whether any was new.
  unfoldable pub merge_inputs : List TxIn → List TxIn → Result (List TxIn × Bool)
  unfolding merge_script
  merge_inputs [] others = ok ([], false)
  merge_inputs (t ∷ ts) [] = fault
  merge_inputs (t ∷ ts) (other ∷ others) = do
    (script, changed) ← merge_script t.script other.script
    (later, more) ← merge_inputs ts others
    ok (record t { script = script } ∷ later, changed || more)

  -- The flag tells whether the stored transaction is returned rather than a null pointer.
  unfoldable pub merge_unsigned : Tx → Tx → Result (Tx × Bool)
  unfolding merge_inputs
  merge_unsigned stored tx = do
    (inputs, updated) ← merge_inputs stored.txins tx.txins
    ok (record stored { txins = inputs }, updated)

  module _ (sha256_2 : Bytes → Bytes) where
    unfoldable pub replace_unsigned : Tx → Tx → Result (Tx × Bool)
    unfolding copy_scripts update_status
    replace_unsigned stored tx = do
      inputs ← copy_scripts stored.txins tx.txins
      (after, changed) ←
          update_status hash160 garbage sha256_2 (record stored { txins = inputs }) tx.status
      ok (after, true)

    unfoldable pub update_stored : Tx → Tx → Result (Tx × Bool)
    unfolding update_status
    update_stored stored tx =
        if not (same_status tx.status unsigned)
          && ltb (status_code stored.status) (status_code tx.status)
        then (do
          (after, changed) ← update_status hash160 garbage sha256_2 stored tx.status
          ok (after, true))
        else ok (stored, false)

    -- Behind `tx->updateStatus()`.
    unfoldable pub insert_updated : Tx → Tx → Result (Tx × Bool)
    unfolding replace_unsigned merge_unsigned update_stored
    insert_updated stored tx =
        if same_status stored.status unsigned
        then (if not (same_status tx.status unsigned)
            then replace_unsigned stored tx
            else merge_unsigned stored tx)
        else update_stored stored tx

    unfoldable pub insert_known : Tx → Tx → Result (Tx × Bool)
    unfolding insert_updated
    insert_known stored tx = do
      (updated, changed) ← update_status hash160 garbage sha256_2 tx no_status
      insert_updated stored updated
