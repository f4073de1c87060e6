-- ===== src/Vault/Entry/Reach.antt =====
-- The stored transactions through insertTx and deleteTx of CoinDB/src/Vault.cpp.
use coin_vault.Common.{
  Bytes, le_cases, bytes_eq, ℕ, ◌+◌, ◌<◌, min, ◌≡◌, refl, sym, ap, ◌∙◌, inl, inr, Bool, true, ◌||◌,
  Option, none, some, List, [], ◌∷◌, arith, ◌==◌, Bool-cases, ==-refl, if_cases, >>=-eq-ok,
  ok-injective, ok,
}
use mathlib.Core.Path.{subst}
use mathlib.Core.Option.{some-injective}
use coin_vault.Vault.Blocks.{MerkleBlock}
use coin_vault.Vault.Outputs.{Spender}
use coin_vault.Vault.Tx.{Tx, no_status, update_status}
use coin_vault.Vault.Insert.{insert_updated}
use coin_vault.Vault.DeleteTx.{Row, find_row, spender_at, delete_tx}
use coin_vault.Vault.DeleteTx.Counts.{count_spent, has_index}
use coin_vault.Vault.DeleteTx.Steps.{spender_at-count}
use coin_vault.Vault.DeleteTx.Chains.{IsRanked, delete_tx_lem}
use coin_vault.Vault.Arrivals.{ScriptTable, Store}
use coin_vault.Vault.Arrivals.Connected.{IsConnected, below_inputs}
use coin_vault.Vault.Arrivals.Insertion.{Arrives, insert_new-IsConnected}
use coin_vault.Vault.Entry.{
  find_unsigned, find_either, delete_found, delete_hash, commit_stored, insert_found, insert_tx,
}
use coin_vault.Vault.Entry.Stored.{insert_updated-SamePlaces, commit_stored-IsConnected}

-- The rank of a transaction is its key.
abbrev rank : ℕ → ℕ → ℕ
rank next j = min j next

spender_below :
    (store : Store) (j i : ℕ) (s : Spender)
    → IsConnected store
    → spender_at j i store.rows ≡ some s
    → s.tx < store.next_id
spender_below store j i s sound e = elim (le_cases store.next_id s.tx) [
  | inr low ↦ low
  | inl high ↦
      let has = sound.linked.1 s.tx s.txin.txindex (spender_at-count j i store.rows s e) in
      let f : has_index s.txin.txindex [] ≡ true =
        rw (below_inputs store.next_id s.tx store.rows sound.below high) at has in
      cc
]

sound-IsRanked : (store : Store) → IsConnected store → IsRanked (rank store.next_id) store.rows
sound-IsRanked store sound j i s e =
    omega (arith, sound.ordered j i s e, spender_below store j i s sound e)

-- A stored transaction can be deleted, with fuel for the number of keys.
delete_tx-IsConnected :
    (store : Store) (id : ℕ) (r : Row)
    → IsConnected store
    → find_row id store.rows ≡ some r
    → (after : List Row) × (delete_tx (store.next_id + 1) id store.rows ≡ ok after)
      × IsConnected (record store { rows = after })
      × (find_row id after ≡ none)
      × ((l : ℕ) → count_spent id l after ≡ 0)
delete_tx-IsConnected store id r sound found =
    let (after, e, (linked, ranked, less, alone, gone, below)) =
      delete_tx_lem (rank store.next_id) (store.next_id + 1) (λ j. omega arith) (store.next_id + 1)
        id store.rows r (omega arith) sound.linked (sound-IsRanked store sound) found in
    (
      after,
      e,
      record {
        linked = linked;
        below = below store.next_id sound.below;
        ordered = λ j i s f. omega (arith, ranked j i s f);
      },
      gone,
      alone,
    )

find_either-find_row :
    (hash : Bytes) (rows : List Row) {r : Row}
    → find_either hash rows ≡ some r
    → (q : Row) × (find_row r.id rows ≡ some q)
unfolding find_either find_row
find_either-find_row hash [] found = cc
find_either-find_row hash (p ∷ ps) {r} found =
    elim (if_cases (bytes_eq p.tx.hash hash || bytes_eq p.tx.unsigned_hash hash) found) [
      | inl (_, e) ↦
          let same : (p.id == r.id) ≡ true =
            rw (ap (λ (x : Row). x.id) (some-injective p r e)) (==-refl r.id) in
          (p, rw same refl)
      | inr (_, later) ↦
          let (q, e) = find_either-find_row hash ps later in
          elim (Bool-cases (p.id == r.id)) [
            | inl same ↦ (p, rw same refl)
            | inr other ↦ (q, rw other e)
          ]
    ]

-- What deleteTx does for a hash that it finds.
delete_hash_lem :
    (store : Store) (hash : Bytes) (r : Row)
    → IsConnected store
    → find_either hash store.rows ≡ some r
    → (after : Store) × (delete_hash hash store ≡ ok after)
      × IsConnected after
      × (find_row r.id after.rows ≡ none)
      × ((l : ℕ) → count_spent r.id l after.rows ≡ 0)
unfolding delete_hash delete_found
delete_hash_lem store hash r sound found =
    let (q, e) = find_either-find_row hash store.rows found in
    let (rows, deleted, after, gone, alone) = delete_tx-IsConnected store r.id q sound e in
    (record store { rows = rows }, rw (found, deleted) refl, after, gone, alone)

delete_hash-IsConnected :
    (store : Store) (hash : Bytes) (found : Option Row) {after : Store}
    → IsConnected store
    → find_either hash store.rows ≡ found
    → delete_hash hash store ≡ ok after
    → IsConnected after
unfolding delete_hash delete_found
delete_hash-IsConnected store hash none sound e returns = cc (rw e at returns)
delete_hash-IsConnected store hash (some r) sound e returns =
    let (after, f, sound', _, _) = delete_hash_lem store hash r sound e in
    subst (λ (s : Store). IsConnected s) (ok-injective (sym f ∙ returns)) sound'

module _ (scripts : ScriptTable) (hash160 : Bytes → Bytes) (garbage : ℕ)
    (sha256_2 : Bytes → Bytes) where
  open scripts use {Table}

  infix 40 ◌⟶◌
  -- An unknown transaction arrives in order.
  pub data ◌⟶◌ : Store → Store → Type 0 where
    inserted :
        {before after : Store} (blocks : List MerkleBlock) (table table' : Table) (tx updated : Tx)
        (changed : Bool) (stored : Option Tx)
        → update_status hash160 garbage sha256_2 tx no_status ≡ ok (updated, changed)
        → (find_unsigned updated.unsigned_hash before.rows ≡ none → Arrives before updated)
        → insert_tx scripts hash160 garbage sha256_2 blocks before table tx
          ≡ ok (after, table', stored)
        → before ⟶ after
    deleted :
        {before after : Store} (hash : Bytes) → delete_hash hash before ≡ ok after → before ⟶ after

  -- A vault without transactions, and what happens to it.
  pub data Reachable : Store → Type 0 where
    empty : Reachable (record { rows = []; next_id = 0 })
    next : {before after : Store} → Reachable before → before ⟶ after → Reachable after

  insert_found-IsConnected :
      (blocks : List MerkleBlock) (store : Store) (table : Table) (tx : Tx) (found : Option Row)
      (q : Store × Table × Option Tx)
      → IsConnected store
      → find_unsigned tx.unsigned_hash store.rows ≡ found
      → (found ≡ none → Arrives store tx)
      → insert_found scripts hash160 garbage sha256_2 blocks store table tx found ≡ ok q
      → IsConnected q.0
  unfolding insert_found
  insert_found-IsConnected blocks store table tx none q sound e arrives returns =
      insert_new-IsConnected scripts hash160 garbage sha256_2 blocks store table tx q sound
        (arrives refl) returns
  insert_found-IsConnected blocks store table tx (some r) q sound e arrives returns =
      let ((stored, returned), updated, result) =
        >>=-eq-ok (insert_updated hash160 garbage sha256_2 r.tx tx)
          (λ (p : Tx × Bool).
            let (after, result) = commit_stored tx.unsigned_hash store p.0 p.1 in
            ok (after, table, result))
          returns in
      subst (λ (q : Store × Table × Option Tx). IsConnected q.0) (ok-injective result)
        (commit_stored-IsConnected tx.unsigned_hash store stored returned r sound e
          (insert_updated-SamePlaces hash160 garbage sha256_2 r.tx tx updated))

  ⟶-IsConnected : {before after : Store} → before ⟶ after → IsConnected before → IsConnected after
  unfolding insert_tx
  ⟶-IsConnected {before} {after}
        (inserted blocks table table' tx updated changed stored e arrives returns) sound =
      insert_found-IsConnected blocks before table updated
        (find_unsigned updated.unsigned_hash before.rows) (after, table', stored) sound refl arrives
        (rw e at returns)
  ⟶-IsConnected {before} (deleted hash returns) sound =
      delete_hash-IsConnected before hash (find_either hash before.rows) sound refl returns

  -- From a vault without transactions on, after every sequence of calls of insertTx and deleteTx
  -- in which each transaction that is inserted while no stored one has its unsigned hash arrives
  -- in order (its inputs numbered, none of its outputs spent, and no stored input referring to
  -- it): every spender of a stored output is an input of a stored transaction that came later, no
  -- input spends two outputs, and the keys in use are below the next one, for any signing scripts
  -- and hash functions.
  pub Reachable-IsConnected : (store : Store) → Reachable store → IsConnected store
  unfolding spender_at
  Reachable-IsConnected store empty = record {
    linked = (λ j l. omega arith, λ j l h. absurd (omega arith));
    below = tt;
    ordered = λ j i s e. cc;
  }
  Reachable-IsConnected store (next earlier step) =
      ⟶-IsConnected step (Reachable-IsConnected _ earlier)

  -- In every vault so reached, deleteTx succeeds for each hash or unsigned hash that a stored
  -- transaction has, its recursion going no deeper than the number of keys given out; the
  -- transaction is gone then, no output is spent by it any more, every remaining output is spent
  -- by an input of a stored transaction that came later or not at all, and no input spends two
  -- outputs.
  pub delete_hash_total :
      (store : Store) (hash : Bytes) (r : Row)
      → Reachable store
      → find_either hash store.rows ≡ some r
      → (after : Store) × (delete_hash hash store ≡ ok after)
        × IsConnected after
        × (find_row r.id after.rows ≡ none)
        × ((l : ℕ) → count_spent r.id l after.rows ≡ 0)
  delete_hash_total store hash r reachable found =
      delete_hash_lem store hash r (Reachable-IsConnected store reachable) found
