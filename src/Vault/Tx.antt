-- ===== src/Vault/Tx.antt =====
-- class Tx of CoinDB/src/Schema.h and Schema.cpp: a transaction as the vault stores it.
use coin_vault.Common.{
  Bytes, ℕ, ◌+◌, ◌*◌, Bool, true, false, not, ◌&&◌, Option, none, some, List, [], ◌∷◌, ◌++◌,
  reverse, ltb, ◌==◌, if◌then◌else◌, Result, ◌>>=◌, ◌>>◌, ok,
}
use coin_vault.Wire.Transaction as CoinTx
use coin_vault.Wire.Transaction.Scripts.{clear_script_sigs}
use coin_vault.Wire.TxIn as CoinTxIn
use coin_vault.Wire.TxOut as CoinTxOut
use coin_vault.Script.Object.Parse.{parse}
use coin_vault.Script.Object.Signatures.{sigs_needed, missing_sigs}
use coin_vault.Vault.Blocks.{BlockHeader}
use coin_vault.Vault.Inputs.{TxIn}
use coin_vault.Vault.Inputs
use coin_vault.Vault.Outputs.{TxOut}
use coin_vault.Vault.Outputs
pub mod RoundTrip
pub mod UpdateStatus
pub mod Lifecycle

-- `Tx::status_t`
pub data Status : Type 0 where
  no_status unsigned unsent sent propagated conflicting canceled confirmed : Status

abbrev pub status_code : Status → ℕ
status_code no_status = 0
status_code unsigned = 1
status_code unsent = 2
status_code sent = 4
status_code propagated = 8
status_code conflicting = 16
status_code canceled = 32
status_code confirmed = 64

abbrev pub same_status : Status → Status → Bool
same_status a b = status_code a == status_code b

pub record Tx : Type 0 where
  pub hash : Bytes
  pub unsigned_hash : Bytes
  pub version : ℕ
  pub txins : List TxIn
  pub txouts : List TxOut
  pub locktime : ℕ
  pub timestamp : ℕ
  pub status : Status
  pub fee : Option ℕ
  pub blockheader : Option BlockHeader
  pub blockindex : Option ℕ

-- The default constructor, with its default arguments.
unfoldable pub new : Tx
new = record {
  hash = [];
  unsigned_hash = [];
  version = 1;
  txins = [];
  txouts = [];
  locktime = 0;
  timestamp = 0xffffffff;
  status = propagated;
  fee = none;
  blockheader = none;
  blockindex = none;
}

-- `txin->txindex(i++)` for each input.
unfoldable pub number_inputs : ℕ → List TxIn → List TxIn
number_inputs i [] = []
number_inputs i (t ∷ ts) = record t { txindex = i } ∷ number_inputs (i + 1) ts

unfoldable pub number_outputs : ℕ → List TxOut → List TxOut
number_outputs i [] = []
number_outputs i (t ∷ ts) = record t { txindex = i } ∷ number_outputs (i + 1) ts

unfoldable pub inputs_from : ℕ → List CoinTxIn.TxIn → List TxIn
unfolding Inputs.from_coin_core
inputs_from i [] = []
inputs_from i (t ∷ ts) = Inputs.from_coin_core i t ∷ inputs_from (i + 1) ts

unfoldable pub outputs_from : ℕ → List CoinTxOut.TxOut → List TxOut
unfolding Outputs.from_coin_core
outputs_from i [] = []
outputs_from i (t ∷ ts) = Outputs.from_coin_core i t ∷ outputs_from (i + 1) ts

unfoldable pub from_coin_core : Tx → CoinTx.Transaction → Tx
unfolding inputs_from outputs_from
from_coin_core tx core = record tx {
  version = core.version;
  txins = inputs_from 0 core.inputs;
  txouts = outputs_from 0 core.outputs;
  locktime = core.lock_time;
}

unfoldable pub inputs_to : List TxIn → Result (List CoinTxIn.TxIn)
unfolding Inputs.to_coin_core
inputs_to [] = ok []
inputs_to (t ∷ ts) = do core ← Inputs.to_coin_core t; cores ← inputs_to ts; ok (core ∷ cores)

unfoldable pub outputs_to : List TxOut → List CoinTxOut.TxOut
unfolding Outputs.to_coin_core
outputs_to [] = []
outputs_to (t ∷ ts) = Outputs.to_coin_core t ∷ outputs_to ts

unfoldable pub to_coin_core : Tx → Result CoinTx.Transaction
unfolding inputs_to outputs_to
to_coin_core tx = do
  inputs ← inputs_to tx.txins
  ok (record {
    version = tx.version;
    inputs = inputs;
    outputs = outputs_to tx.txouts;
    lock_time = tx.locktime;
  })

unfoldable pub raw : Tx → Result Bytes
unfolding to_coin_core
raw tx = do core ← to_coin_core tx; ok (CoinTx.get_serialized core)

unfoldable pub set_block : Option BlockHeader → ℕ → Tx → Tx
set_block header index tx = record tx { blockheader = header; blockindex = some index }

unfoldable pub set_blockheader : Option BlockHeader → Tx → Tx
set_blockheader (some header) tx = record tx { blockheader = some header; status = confirmed }
set_blockheader none tx = record tx {
  blockheader = none;
  status = if same_status tx.status confirmed then propagated else tx.status;
}

-- The `switch` on the new status when a transaction has become signed.
unfoldable pub signed_status : Status → Status
signed_status no_status = unsent
signed_status unsigned = propagated
signed_status status = status

-- `sha256_2` stands for the hash function of transactions.
module _ (sha256_2 : Bytes → Bytes) where
  -- `getHashLittleEndian` of a transaction.
  unfoldable pub get_hash : CoinTx.Transaction → Bytes
  get_hash core = reverse (sha256_2 (CoinTx.get_serialized core))

  -- How each overload of `set` ends.
  unfoldable pub settle : CoinTx.Transaction → Status → Tx → ℕ → Tx
  unfolding get_hash clear_script_sigs
  settle core status tx missing =
      let settled =
        if ltb 0 missing
        then record tx { status = unsigned }
        else record tx { status = status; hash = get_hash core } in
      record settled { unsigned_hash = get_hash (clear_script_sigs core) }

  unfoldable pub update_signed : Tx → Status → Result (Tx × Bool)
  unfolding signed_status to_coin_core get_hash
  update_signed tx status =
      if same_status tx.status unsigned
      then (do
        core ← to_coin_core tx
        ok (record tx { status = signed_status status; hash = get_hash core }, true))
      else if not (same_status status no_status)
          && (not (same_status status unsigned) && not (same_status status tx.status))
      then ok (record tx { status = status }, true)
      else ok (tx, false)

-- `hash160` stands for ripemd160 after sha256; `garbage` is what an input script that is not
-- understood holds as its minimum of signatures.
module _ (hash160 : Bytes → Bytes) (garbage : ℕ) where
  unfoldable pub missing_from : ℕ → List TxIn → Result ℕ
  unfolding parse sigs_needed
  missing_from count [] = ok count
  missing_from count (t ∷ ts) = do
    script ← parse hash160 garbage t.script
    let needed = sigs_needed script
    missing_from (if ltb count needed then needed else count) ts

  unfoldable pub missing_sig_count : Tx → Result ℕ
  unfolding missing_from
  missing_sig_count tx = missing_from 0 tx.txins

  -- The keys of every input; the code collects them in a set.
  unfoldable pub missing_pubkeys_from : List TxIn → Result (List Bytes)
  unfolding parse missing_sigs
  missing_pubkeys_from [] = ok []
  missing_pubkeys_from (t ∷ ts) = do
    script ← parse hash160 garbage t.script
    keys ← missing_sigs script
    more ← missing_pubkeys_from ts
    ok (keys ++ more)

  unfoldable pub missing_sig_pubkeys : Tx → Result (List Bytes)
  unfolding missing_pubkeys_from
  missing_sig_pubkeys tx = missing_pubkeys_from tx.txins

  module _ (sha256_2 : Bytes → Bytes) where
    unfoldable pub set_coin_core : Tx → CoinTx.Transaction → ℕ → Status → Result Tx
    unfolding from_coin_core missing_sig_count settle
    set_coin_core tx core timestamp status = do
      let filled = record (from_coin_core tx core) { timestamp = timestamp }
      missing ← missing_sig_count filled
      ok (settle sha256_2 core status filled missing)

    unfoldable pub set_raw : Tx → Bytes → ℕ → Status → Result Tx
    unfolding set_coin_core
    set_raw tx bytes timestamp status = do
      core ← CoinTx.set_serialized bytes
      set_coin_core tx core timestamp status

    unfoldable pub set : Tx → ℕ → List TxIn → List TxOut → ℕ → ℕ → Status → Result Tx
    unfolding number_inputs number_outputs to_coin_core missing_sig_count settle
    set tx version txins txouts locktime timestamp status = do
      let filled = record tx {
        version = version;
        txins = number_inputs 0 txins;
        txouts = number_outputs 0 txouts;
        locktime = locktime;
        timestamp = timestamp;
      }
      core ← to_coin_core filled
      missing ← missing_sig_count filled
      ok (settle sha256_2 core status filled missing)

    unfoldable pub update_status : Tx → Status → Result (Tx × Bool)
    unfolding missing_sig_count update_signed
    update_status tx status = do
      missing ← missing_sig_count tx
      if ltb 0 missing
          then ok (record tx { status = unsigned; hash = [] }, true)
          else (update_signed sha256_2 tx status)
