-- ===== src/Vault/Outputs.antt =====
-- class TxOut of CoinDB/src/Schema.h and Schema.cpp: an output as the vault stores it.
use coin_vault.Common.{
  Bytes, ℕ, ◌≡◌, refl, Option, none, some, [], Result, ◌>>=◌, null_script, err, ok,
}
use coin_vault.Wire.TxOut as CoinTxOut
use coin_vault.Vault.Inputs.{TxIn}

-- `TxOut::status_t`
pub data Spending : Type 0 where
  neither unspent spent both : Spending

-- What an output takes from the signing script that it pays to; accounts and bins are numbers.
pub record Receiver : Type 0 where
  pub txoutscript : Bytes
  pub account : ℕ
  pub label : Bytes
  pub account_bin : ℕ

-- What `spent()` points to: an input, with the key of its transaction.
pub record Spender : Type 0 where
  pub tx : ℕ
  pub txin : TxIn

pub record TxOut : Type 0 where
  pub value : ℕ
  pub script : Bytes
  pub txindex : ℕ
  pub spender : Option Spender
  pub receiver : Option Receiver
  pub status : Spending

unfoldable pub from_coin_core : ℕ → CoinTxOut.TxOut → TxOut
from_coin_core garbage t = record {
  value = t.value;
  script = t.script_pub_key;
  txindex = garbage;
  spender = none;
  receiver = none;
  status = unspent;
}

unfoldable pub from_raw : ℕ → Bytes → Result TxOut
unfolding from_coin_core
from_raw garbage raw = do t ← CoinTxOut.set_serialized raw; ok (from_coin_core garbage t)

unfoldable pub set_spent : Option Spender → TxOut → TxOut
set_spent none t = record t { spender = none; status = unspent }
set_spent (some i) t = record t { spender = some i; status = spent }

unfoldable pub set_signingscript : Option Receiver → TxOut → Result TxOut
set_signingscript none t = err null_script
set_signingscript (some r) t = ok (record t { script = r.txoutscript; receiver = some r })

-- The constructor for change and transfers, which does not initialise `status_`.
unfoldable pub from_signingscript : ℕ → Spending → ℕ → Option Receiver → Result TxOut
unfolding set_signingscript
from_signingscript garbage garbage_status value receiver = set_signingscript receiver (record {
  value = value;
  script = [];
  txindex = garbage;
  spender = none;
  receiver = none;
  status = garbage_status;
})

unfoldable pub to_coin_core : TxOut → CoinTxOut.TxOut
to_coin_core t = record { value = t.value; script_pub_key = t.script }

unfoldable pub raw : TxOut → Bytes
unfolding to_coin_core
raw t = CoinTxOut.get_serialized (to_coin_core t)

pub to_coin_core-from_coin_core :
    (garbage : ℕ) (t : CoinTxOut.TxOut) → to_coin_core (from_coin_core garbage t) ≡ t
unfolding to_coin_core from_coin_core
to_coin_core-from_coin_core garbage t = refl
