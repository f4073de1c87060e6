-- ===== src/Tests/VaultTests.antt =====
-- Toy hashes and keys, a bin with a pool of two scripts, and transactions with one input.
use coin_vault.Common.{
  Bytes, uint_to_vch, read_uint, ℕ, zero, suc, ◌+◌, ◌^◌, ◌≤◌, ◌≡◌, refl, true, some, List, [], ◌∷◌,
  arith, ltb, if◌then◌else◌, ltb-true, Result, ◌>>=◌, index_out_of_range, fault, stuck, err, ok,
}
use coin_vault.Wire.OutPoint.{OutPoint}
use coin_vault.Wire.OutPoint
use coin_vault.Wire.VarInt
use coin_vault.Wire.TxIn as CoinTxIn
use coin_vault.Wire.TxOut as CoinTxOut
use coin_vault.Wire.Transaction as CoinTx
use coin_vault.Wire.Transaction.RoundTrip.{IsValid}
use coin_vault.Wire.Transaction.Scripts.{clear_script_sigs}
use coin_vault.Vault.Tx.{
  Tx, unsigned, sent, propagated, new, set_coin_core, set_raw, raw, get_hash, update_status,
}
use coin_vault.Vault.Tx.RoundTrip.{raw-set_raw}
use coin_vault.Vault.Tx.UpdateStatus.{IsConsistent}
use coin_vault.Vault.Tx.Lifecycle.{born, lives, updated, life-IsConsistent}
use coin_vault.Vault.Scripts.{AccountBin}
use coin_vault.Vault.Scripts.Make.{DerivesKeys}
use coin_vault.Vault.Pool.{Pool, count_unused, issue}
use coin_vault.Vault.Pool.Refill.{IsWellFormed}
use coin_vault.Vault.Pool.Rows.{frontier}
use coin_vault.Vault.Pool.Issue.{issue_lem}
use coin_vault.Vault.Pool.Reach.{IsSound, created, next, issuing, Reachable-IsSound}

abbrev toy_hash : Bytes → Bytes
toy_hash bytes = bytes

-- As from a public key, no key is derived from 2^31 on.
abbrev toy_keys : ℕ → Result (List Bytes)
toy_keys i = if ltb i (2 ^ 31) then ok ((i ∷ []) ∷ []) else err index_out_of_range

abbrev toy_bin : AccountBin
toy_bin = record { index = 3; name = []; script_count = 0; next_script_index = 0; minsigs = 1 }

abbrev toy_pool : Pool
toy_pool = record { bin = toy_bin; scripts = []; account_pool_size = some 2 }

toy_derives : DerivesKeys toy_keys 0 (2 ^ 31) 1
toy_derives = record {
  inside = omega arith;
  derived =
      λ i low high. ((i ∷ []) ∷ [], rw (ltb-true i (2 ^ 31) high) refl, omega arith, omega arith);
  one = omega arith;
}

toy-IsWellFormed : IsWellFormed toy_pool
unfolding frontier
toy-IsWellFormed = record { numbered = tt; counted = refl; next = refl }

issued_once :
    (after : Pool) × (issue toy_hash toy_keys (ok tt) [] toy_pool ≡ ok (after, 0))
    × IsWellFormed after
    × (after.bin.next_script_index ≡ 0 + 1)
    × (2 ≤ count_unused after.scripts)
    × (after.bin.minsigs ≡ 1)
issued_once =
    issue_lem toy_hash toy_keys (ok tt) [] toy_pool refl toy-IsWellFormed toy_derives (omega arith)
      (omega arith) (omega arith)

issue_lem_example :
    (after : Pool) × (issue toy_hash toy_keys (ok tt) [] toy_pool ≡ ok (after, 0))
    × IsWellFormed after
    × (after.bin.next_script_index ≡ 0 + 1)
    × (2 ≤ count_unused after.scripts)
    × (after.bin.minsigs ≡ 1)
issue_lem_example =
    issue_lem toy_hash toy_keys (ok tt) [] toy_pool refl toy-IsWellFormed toy_derives (omega arith)
      (omega arith) (omega arith)

issued_twice :
    (issue toy_hash toy_keys (ok tt) [] toy_pool >>= λ (p, i).
    issue toy_hash toy_keys (ok tt) [] p >>= λ (q, j). ok (i ∷ j ∷ q.bin.script_count ∷ []))
    ≡ ok (0 ∷ 1 ∷ 4 ∷ [])
unfolding issue
issued_twice = refl

abbrev issued_pool : Pool
issued_pool = issued_once.0

Reachable-IsSound_example : IsSound toy_hash toy_keys (2 ^ 31) issued_pool
Reachable-IsSound_example = Reachable-IsSound toy_hash toy_keys (2 ^ 31) issued_pool (
    next (created refl refl refl toy_derives) (omega arith)
      (issuing [] 0 (omega arith) issued_once.1))

-- A hash of 32 bytes.
abbrev zeros : ℕ → Bytes
zeros zero = []
zeros (suc n) = 0 ∷ zeros n

abbrev paying : Bytes → CoinTx.Transaction
paying script = record {
  version = 1;
  inputs =
      record {
        previous_out = record { hash = zeros 32; index = 0 };
        script_sig = script;
        sequence = 0xffffffff;
      }
      ∷ [];
  outputs = record { value = 5; script_pub_key = 0x51 ∷ [] } ∷ [];
  lock_time = 0;
}

-- A signature and a key; and the key behind the placeholder of a signature.
abbrev signed_core : CoinTx.Transaction
signed_core = paying (0x01 ∷ 0xaa ∷ 0x01 ∷ 0xbb ∷ [])

abbrev unsigned_core : CoinTx.Transaction
unsigned_core = paying (0x00 ∷ 0x01 ∷ 0xbb ∷ [])

abbrev tx_of : Result Tx → Tx
tx_of (ok t) = t
tx_of (err e) = new
tx_of fault = new
tx_of stuck = new

abbrev pub signed_tx : Tx
unfolding set_coin_core
signed_tx = tx_of (set_coin_core toy_hash 0 toy_hash new signed_core 7 propagated)

unsigned_status :
    (set_coin_core toy_hash 0 toy_hash new unsigned_core 7 propagated >>= λ t. ok t.status)
    ≡ ok unsigned
unfolding set_coin_core
unsigned_status = refl

signed_status_is : signed_tx.status ≡ propagated
unfolding signed_tx
signed_status_is = refl

signed_core-IsValid : IsValid signed_core
unfolding CoinTx.get_size CoinTxIn.get_size CoinTxOut.get_size VarInt.get_size
signed_core-IsValid = record {
  version_range = omega arith;
  inputs_valid = (
    record {
      out_valid = record { hash_size = refl; index_range = omega arith };
      size_range = omega arith;
      sequence_range = omega arith;
    },
    tt,
  );
  outputs_valid = (record { value_range = omega arith; script_range = omega arith }, tt);
  lock_time_range = omega arith;
  size_range = omega arith;
}

signed_is : set_coin_core toy_hash 0 toy_hash new signed_core 7 propagated ≡ ok signed_tx
unfolding signed_tx
signed_is = refl

set_raw_signed :
    set_raw toy_hash 0 toy_hash new (CoinTx.get_serialized signed_core) 7 propagated ≡ ok signed_tx
unfolding set_raw signed_tx CoinTx.set_serialized CoinTx.get_serialized uint_to_vch read_uint
    VarInt.get_serialized VarInt.set_serialized VarInt.get_size CoinTxIn.get_serialized_with
    CoinTxIn.set_serialized CoinTxIn.get_size OutPoint.get_serialized OutPoint.set_serialized
    CoinTxOut.get_serialized CoinTxOut.set_serialized CoinTxOut.get_size
set_raw_signed = refl

raw-set_raw_example :
    (set_coin_core toy_hash 0 toy_hash new signed_core 7 propagated ≡ ok signed_tx)
    × (raw signed_tx ≡ ok (CoinTx.get_serialized signed_core))
    × (signed_tx.unsigned_hash ≡ get_hash toy_hash (clear_script_sigs signed_core))
raw-set_raw_example =
    raw-set_raw toy_hash toy_hash 0 new signed_core 7 propagated signed_core-IsValid set_raw_signed

sent_tx : Tx
sent_tx = record signed_tx { status = sent }

sent_is : update_status toy_hash 0 toy_hash signed_tx sent ≡ ok (sent_tx, true)
unfolding update_status signed_tx sent_tx
sent_is = refl

life-IsConsistent_example : IsConsistent toy_hash toy_hash 0 sent_tx
unfolding sent_tx
life-IsConsistent_example = life-IsConsistent toy_hash toy_hash 0 sent_tx (
    lives (born signed_core 7 propagated signed_core-IsValid (λ e. cc) signed_is)
      (updated sent true sent_is))
