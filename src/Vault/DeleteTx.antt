-- ===== src/Vault/DeleteTx.antt =====
-- deleteTx_unwrapped of CoinDB/src/Vault.cpp. A stored transaction has a key; what the session loads
-- is the row itself, so a change of an output is seen wherever it is loaded again.
use coin_vault.Common.{
  length, at, ℕ, zero, suc, ◌+◌, ◌*◌, Bool, true, false, ◌&&◌, Option, none, some, List, [], ◌∷◌,
  ◌==◌, if◌then◌else◌, Result, ◌>>=◌, ◌>>◌, fault, stuck, ok,
}
use coin_vault.Vault.Inputs.{TxIn}
use coin_vault.Vault.Outputs.{TxOut, Spender, set_spent}
use coin_vault.Vault.Tx.{Tx}
pub mod Counts
pub mod Steps
pub mod Chains

pub record Row : Type 0 where
  pub id : ℕ
  pub tx : Tx

unfoldable pub find_row : ℕ → List Row → Option Row
find_row id [] = none
find_row id (r ∷ rs) = let later = find_row id rs in if r.id == id then some r else later

-- `query<TxOut>::spent == txin->id()`
abbrev pub is_spent_by : ℕ → ℕ → Option Spender → Bool
is_spent_by id index none = false
is_spent_by id index (some s) = s.tx == id && s.txin.txindex == index

-- The first of the outputs that the input spends, if there is one.
unfoldable pub unspend_outputs : ℕ → ℕ → List TxOut → List TxOut × Bool
unfolding set_spent
unspend_outputs id index [] = ([], false)
unspend_outputs id index (t ∷ ts) =
    let (later, found) = unspend_outputs id index ts in
    if is_spent_by id index t.spender then (set_spent none t ∷ ts, true) else (t ∷ later, found)

unfoldable pub unspend : ℕ → ℕ → List Row → List Row
unfolding unspend_outputs
unspend id index [] = []
unspend id index (r ∷ rs) =
    let (txouts, found) = unspend_outputs id index r.tx.txouts in
    let later = unspend id index rs in
    if found then record r { tx = record r.tx { txouts = txouts } } ∷ rs else r ∷ later

-- The loop over the inputs of the transaction.
unfoldable pub unspend_all : ℕ → List TxIn → List Row → List Row
unfolding unspend
unspend_all id [] rows = rows
unspend_all id (t ∷ ts) rows = unspend_all id ts (unspend id t.txindex rows)

-- `txout->spent()` for the output at a place.
unfoldable pub spender_of : ℕ → List TxOut → Option Spender
spender_of i [] = none
spender_of zero (t ∷ ts) = t.spender
spender_of (suc i) (t ∷ ts) = spender_of i ts

unfoldable pub spender_at : ℕ → ℕ → List Row → Option Spender
unfolding spender_of
spender_at id i [] = none
spender_at id i (r ∷ rs) =
    let later = spender_at id i rs in if r.id == id then spender_of i r.tx.txouts else later

-- The loop over the outputs, of which `left` are left; `delete` deletes a transaction.
unfoldable pub delete_spenders :
    (ℕ → List Row → Result (List Row)) → ℕ → ℕ → ℕ → List Row → Result (List Row)
unfolding spender_at
delete_spenders delete id zero i rows = ok rows
delete_spenders delete id (suc left) i rows = do
  after ← elim (spender_at id i rows) [ none ↦ ok rows | some s ↦ delete s.tx rows ]
  delete_spenders delete id left (i + 1) after

unfoldable pub remove_row : ℕ → List Row → List Row
remove_row id [] = []
remove_row id (r ∷ rs) = let later = remove_row id rs in if r.id == id then later else r ∷ later

-- A transaction that has been loaded; `delete` deletes those that spend its outputs.
unfoldable pub delete_row :
    (ℕ → List Row → Result (List Row)) → ℕ → Option Row → List Row → Result (List Row)
unfolding unspend_all delete_spenders remove_row
delete_row delete id none rows = fault
delete_row delete id (some r) rows = do
  after ← delete_spenders delete id (length r.tx.txouts) 0 (unspend_all id r.tx.txins rows)
  ok (remove_row id after)

-- The fuel bounds the depth of the recursion.
unfoldable pub delete_tx : ℕ → ℕ → List Row → Result (List Row)
unfolding find_row delete_row
delete_tx zero id rows = stuck
delete_tx (suc fuel) id rows = delete_row (delete_tx fuel) id (find_row id rows) rows
