-- ===== src/Vault/CreateTx.antt =====
-- createTx_unwrapped of CoinDB/src/Vault.cpp: the choice of coins for a payment. All amounts are in
-- `uint64_t`.
use coin_vault.Common.{
  Bytes, u64, ℕ, zero, suc, ◌+◌, ◌-◌, ◌*◌, not, some, List, [], ◌∷◌, ◌++◌, ltb, leb, if◌then◌else◌,
  Result, ◌>>=◌, ◌>>◌, insufficient_funds, err, ok,
}
use coin_vault.Vault.Inputs.{TxIn}
use coin_vault.Vault.Outputs.{TxOut, Receiver, Spending, from_signingscript}
use coin_vault.Vault.Tx.{Tx, new, unsigned, set}
pub mod Conservation

-- `TxOutView`, of an output that is not spent.
pub record Coin : Type 0 where
  pub value : ℕ
  pub tx_hash : Bytes
  pub tx_index : ℕ
  pub txinscript : Bytes

-- `desired_total += txout->value()`
unfoldable pub add_values : ℕ → List TxOut → ℕ
add_values total [] = total
add_values total (t ∷ ts) = add_values (u64 (total + t.value)) ts

-- The total of the coins up to the first that reaches the amount, and these coins.
unfoldable pub select : ℕ → ℕ → List Coin → ℕ × List Coin
select desired total [] = (total, [])
select desired total (c ∷ cs) =
    let sum = u64 (total + c.value) in
    let (end, chosen) = select desired sum cs in
    if leb desired sum then (sum, c ∷ []) else (end, c ∷ chosen)

unfoldable pub choose_coins : ℕ → List Coin → Result (List Coin × ℕ)
unfolding select
choose_coins desired coins =
    let (total, chosen) = select desired 0 coins in
    if ltb total desired then err insufficient_funds else ok (chosen, total - desired)

-- `new TxIn(utxoview.tx_hash, utxoview.tx_index, utxoview.signingscript_txinscript, 0xffffffff)`
unfoldable pub spend : ℕ → List Coin → List TxIn
spend garbage [] = []
spend garbage (c ∷ cs) =
    record {
      outhash = c.tx_hash;
      outindex = c.tx_index;
      script = c.txinscript;
      sequence = 0xffffffff;
      txindex = garbage;
    }
    ∷ spend garbage cs

-- The change goes to a script of the change bin, which `change_script` stands for.
unfoldable pub with_change : ℕ → Spending → Result Receiver → ℕ → List TxOut → Result (List TxOut)
unfolding from_signingscript
with_change garbage garbage_status change_script zero txouts = ok txouts
with_change garbage garbage_status change_script (suc n) txouts = do
  receiver ← change_script
  txout ← from_signingscript garbage garbage_status (suc n) (some receiver)
  ok (txouts ++ (txout ∷ []))

-- `shuffle` stands for `std::random_shuffle` on the outputs; the coins come shuffled.
module _ (hash160 sha256_2 : Bytes → Bytes) (garbage : ℕ) (garbage_status : Spending)
    (shuffle : List TxOut → List TxOut) where
  unfoldable pub create_tx : ℕ → ℕ → List TxOut → ℕ → List Coin → Result Receiver → ℕ → Result Tx
  unfolding add_values choose_coins spend with_change set new
  create_tx version locktime txouts fee coins change_script now = do
    (chosen, change) ← choose_coins (add_values fee txouts) coins
    outputs ← with_change garbage garbage_status change_script change txouts
    set hash160 garbage sha256_2 new version (spend garbage chosen) (shuffle outputs) locktime now
        unsigned
