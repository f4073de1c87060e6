-- ===== src/Vault/Inputs.antt =====
-- class TxIn of CoinDB/src/Schema.h and Schema.cpp: an input as the vault stores it.
use coin_vault.Common.{Bytes, length, ℕ, ◌≡◌, refl, ◌==◌, if◌then◌else◌, Result, ◌>>=◌, fault, ok}
use coin_vault.Wire.OutPoint.{OutPoint}
use coin_vault.Wire.TxIn as CoinTxIn

pub record TxIn : Type 0 where
  pub outhash : Bytes
  pub outindex : ℕ
  pub script : Bytes
  pub sequence : ℕ
  pub txindex : ℕ

-- The constructors do not initialise `txindex_`: it holds `garbage`.
module _ (garbage : ℕ) where
  unfoldable pub from_coin_core : CoinTxIn.TxIn → TxIn
  from_coin_core t = record {
    outhash = t.previous_out.hash;
    outindex = t.previous_out.index;
    script = t.script_sig;
    sequence = t.sequence;
    txindex = garbage;
  }

  unfoldable pub from_raw : Bytes → Result TxIn
  unfolding from_coin_core
  from_raw raw = do t ← CoinTxIn.set_serialized raw; ok (from_coin_core t)

-- `OutPoint::setPoint` copies the hash into an array of 32 bytes. A longer one overruns it, and of
-- a shorter one the array holds bytes that are not initialised: both are undefined.
unfoldable pub set_point : Bytes → ℕ → Result OutPoint
set_point hash index =
    if length hash == 32 then ok (record { hash = hash; index = index }) else fault

unfoldable pub to_coin_core : TxIn → Result CoinTxIn.TxIn
unfolding set_point
to_coin_core t = do
  out ← set_point t.outhash t.outindex
  ok (record { previous_out = out; script_sig = t.script; sequence = t.sequence })

unfoldable pub raw : TxIn → Result Bytes
unfolding to_coin_core
raw t = do core ← to_coin_core t; ok (CoinTxIn.get_serialized core)

-- An input of the protocol with a hash of 32 bytes survives the way into the vault and back.
pub to_coin_core-from_coin_core :
    (garbage : ℕ) (t : CoinTxIn.TxIn)
    → length t.previous_out.hash ≡ 32
    → to_coin_core (from_coin_core garbage t) ≡ ok t
unfolding to_coin_core set_point from_coin_core
to_coin_core-from_coin_core garbage t h = rw h refl
