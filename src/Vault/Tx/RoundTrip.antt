-- ===== src/Vault/Tx/RoundTrip.antt =====
-- A transaction on its way into class Tx of the vault and back.
use coin_vault.Common.{
  Bytes, ℕ, ◌+◌, ◌≡◌, refl, inl, inr, List, [], ◌∷◌, append-nil, ltb, Bool-cases, >>=-eq-ok,
  ok-injective, ok,
}
use coin_vault.Wire.Codec.{AllValid}
use coin_vault.Wire.TxIn.{tx_in_codec}
use coin_vault.Wire.TxIn as CoinTxIn
use coin_vault.Wire.TxOut as CoinTxOut
use coin_vault.Wire.Transaction as CoinTx
use coin_vault.Wire.Transaction.RoundTrip.{IsValid, transaction_round_trip}
use coin_vault.Wire.Transaction.Scripts.{clear_script_sigs}
use coin_vault.Vault.Inputs
use coin_vault.Vault.Outputs
use coin_vault.Vault.Tx.{
  Tx, Status, inputs_from, inputs_to, outputs_from, outputs_to, from_coin_core, to_coin_core, raw,
  get_hash, settle, missing_sig_count, set_coin_core, set_raw,
}

inputs_to-inputs_from :
    (i : ℕ) (ts : List CoinTxIn.TxIn)
    → AllValid tx_in_codec ts
    → inputs_to (inputs_from i ts) ≡ ok ts
unfolding inputs_to inputs_from tx_in_codec
inputs_to-inputs_from i [] v = refl
inputs_to-inputs_from i (t ∷ ts) v =
    let here = Inputs.to_coin_core-from_coin_core i t v.0.out_valid.hash_size in
    rw (here, inputs_to-inputs_from (i + 1) ts v.1) refl

outputs_to-outputs_from : (i : ℕ) (ts : List CoinTxOut.TxOut) → outputs_to (outputs_from i ts) ≡ ts
unfolding outputs_to outputs_from
outputs_to-outputs_from i [] = refl
outputs_to-outputs_from i (t ∷ ts) =
    rw (Outputs.to_coin_core-from_coin_core i t, outputs_to-outputs_from (i + 1) ts) refl

pub to_coin_core-from_coin_core :
    (tx : Tx) (core : CoinTx.Transaction)
    → IsValid core
    → to_coin_core (from_coin_core tx core) ≡ ok core
unfolding to_coin_core from_coin_core
to_coin_core-from_coin_core tx core v =
    rw (inputs_to-inputs_from 0 core.inputs v.inputs_valid, outputs_to-outputs_from 0 core.outputs)
      refl

module _ (sha256_2 : Bytes → Bytes) where
  pub to_coin_core-settle :
      (core other : CoinTx.Transaction) (given : Status) (timestamp : ℕ) (tx : Tx) (missing : ℕ)
      → to_coin_core (
          settle sha256_2 other given
            (record (from_coin_core tx core) { timestamp = timestamp })
            missing)
        ≡ to_coin_core (from_coin_core tx core)
  unfolding settle to_coin_core
  to_coin_core-settle core other given timestamp tx missing = elim (Bool-cases (ltb 0 missing)) [
    | inl e ↦ rw e refl
    | inr e ↦ rw e refl
  ]

  module _ (hash160 : Bytes → Bytes) (garbage : ℕ) where
    -- The two steps of `set`: signatures are counted, then the transaction is settled.
    pub set_coin_core_steps :
        (tx : Tx) (core : CoinTx.Transaction) (timestamp : ℕ) (given : Status) {filled : Tx}
        → set_coin_core hash160 garbage sha256_2 tx core timestamp given ≡ ok filled
        → (missing : ℕ) × (missing_sig_count hash160 garbage (from_coin_core tx core) ≡ ok missing)
          × (settle sha256_2 core given
                (record (from_coin_core tx core) { timestamp = timestamp })
                missing
              ≡ filled)
    unfolding set_coin_core missing_sig_count
    set_coin_core_steps tx core timestamp given returns =
        let (missing, counted, settled) = >>=-eq-ok _ _ returns in
        (missing, counted, ok-injective settled)

    -- When set has filled a transaction from the serialized form of a valid transaction, it has
    -- done what set does with that transaction itself, raw gives the serialized form back, and the
    -- unsigned hash is the hash of the transaction without its input scripts.
    pub raw-set_raw :
        (tx : Tx) (core : CoinTx.Transaction) (timestamp : ℕ) (given : Status) {filled : Tx}
        → IsValid core
        → set_raw hash160 garbage sha256_2 tx (CoinTx.get_serialized core) timestamp given
          ≡ ok filled
        → (set_coin_core hash160 garbage sha256_2 tx core timestamp given ≡ ok filled)
          × (raw filled ≡ ok (CoinTx.get_serialized core))
          × (filled.unsigned_hash ≡ get_hash sha256_2 (clear_script_sigs core))
    unfolding raw set_raw
    raw-set_raw tx core timestamp given {filled} v returns =
        let set_it : set_coin_core hash160 garbage sha256_2 tx core timestamp given ≡ ok filled =
          rw read at returns in
        let (missing, _, settled) = set_coin_core_steps tx core timestamp given set_it in
        (
          set_it,
          rw
              (
                ← settled,
                to_coin_core-settle core core given timestamp tx missing,
                to_coin_core-from_coin_core tx core v,
              )
              refl,
          rw (← settled) (unfold settle in refl),
        )
      where
        read : CoinTx.set_serialized (CoinTx.get_serialized core) ≡ ok core
        read = rw append-nil at (transaction_round_trip core [] v)
