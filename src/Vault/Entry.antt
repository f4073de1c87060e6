-- ===== src/Vault/Entry.antt =====
-- insertTx and deleteTx of CoinDB/src/Vault.cpp, over the transactions that are stored.
use coin_vault.Common.{
  Bytes, bytes_eq, ℕ, ◌+◌, ◌*◌, Bool, ◌||◌, Option, none, some, List, [], ◌∷◌, if◌then◌else◌,
  Result, ◌>>=◌, ◌>>◌, tx_not_found, err, ok,
}
use coin_vault.Vault.Blocks.{MerkleBlock}
use coin_vault.Vault.Tx.{Tx, no_status, update_status}
use coin_vault.Vault.Insert.{insert_updated}
use coin_vault.Vault.DeleteTx.{Row, delete_tx}
use coin_vault.Vault.Arrivals.{ScriptTable, Store, insert_new}
pub mod Stored
pub mod Reach

-- The first transaction with an unsigned hash.
unfoldable pub find_unsigned : Bytes → List Row → Option Row
unfolding bytes_eq
find_unsigned hash [] = none
find_unsigned hash (r ∷ rs) =
    let later = find_unsigned hash rs in if bytes_eq r.tx.unsigned_hash hash then some r else later

-- That transaction has changed.
unfoldable pub put_unsigned : Bytes → Tx → List Row → List Row
unfolding bytes_eq
put_unsigned hash tx [] = []
put_unsigned hash tx (r ∷ rs) =
    let later = put_unsigned hash tx rs in
    if bytes_eq r.tx.unsigned_hash hash then record r { tx = tx } ∷ rs else r ∷ later

-- `query<Tx>` for either hash.
unfoldable pub find_either : Bytes → List Row → Option Row
unfolding bytes_eq
find_either hash [] = none
find_either hash (r ∷ rs) =
    let later = find_either hash rs in
    if bytes_eq r.tx.hash hash || bytes_eq r.tx.unsigned_hash hash then some r else later

unfoldable pub delete_found : ℕ → Option Row → List Row → Result (List Row)
unfolding delete_tx
delete_found fuel none rows = err tx_not_found
delete_found fuel (some r) rows = delete_tx fuel r.id rows

-- `Vault::deleteTx`
unfoldable pub delete_hash : Bytes → Store → Result Store
unfolding find_either delete_found
delete_hash hash store = do
  rows ← delete_found (store.next_id + 1) (find_either hash store.rows) store.rows
  ok (record store { rows = rows })

-- A stored transaction is returned and committed, or a null pointer is and nothing is committed.
unfoldable pub commit_stored : Bytes → Store → Tx → Bool → Store × Option Tx
unfolding put_unsigned
commit_stored hash store stored returned =
    if returned
    then (record store { rows = put_unsigned hash stored store.rows }, some stored)
    else (store, none)

module _ (scripts : ScriptTable) (hash160 : Bytes → Bytes) (garbage : ℕ)
    (sha256_2 : Bytes → Bytes) where
  open scripts use {Table}

  -- Behind the query for the unsigned hash.
  unfoldable pub insert_found :
      List MerkleBlock → Store → Table → Tx → Option Row → Result (Store × Table × Option Tx)
  unfolding insert_updated commit_stored insert_new
  insert_found blocks store table tx none =
      insert_new scripts hash160 garbage sha256_2 blocks store table tx
  insert_found blocks store table tx (some r) = do
    (stored, returned) ← insert_updated hash160 garbage sha256_2 r.tx tx
    let (after, result) = commit_stored tx.unsigned_hash store stored returned
    ok (after, table, result)

  -- `Vault::insertTx`
  unfoldable pub insert_tx :
      List MerkleBlock → Store → Table → Tx → Result (Store × Table × Option Tx)
  unfolding update_status find_unsigned insert_found
  insert_tx blocks store table tx = do
    (updated, changed) ← update_status hash160 garbage sha256_2 tx no_status
    insert_found blocks store table updated (find_unsigned updated.unsigned_hash store.rows)
