-- ===== src/Vault/Arrivals.antt =====
-- The second half of insertTx_unwrapped of CoinDB/src/Vault.cpp: a transaction arrives of which the
-- vault stores none with the same unsigned hash. The accounts of outputs are left out.
use coin_vault.Common.{
  Bytes, length, u64, at, bytes_eq, ℕ, zero, suc, ◌+◌, ◌-◌, ◌*◌, ◌^◌, Bool, true, false, not, ◌&&◌,
  ◌||◌, Option, none, some, List, [], ◌∷◌, leb, ◌==◌, if◌then◌else◌, Result, ◌>>=◌, ◌>>◌, throw_if,
  outpoint_out_of_range, ok,
}
use coin_vault.Vault.Blocks.{MerkleBlock}
use coin_vault.Vault.Inputs.{TxIn}
use coin_vault.Vault.Outputs.{TxOut, Spender, Receiver, set_spent, set_signingscript}
use coin_vault.Vault.Tx.{Tx, confirmed, conflicting, status_code, same_status, update_status}
use coin_vault.Vault.Ledger.{has_block, confirm_in}
use coin_vault.Vault.DeleteTx.{Row}
pub mod Spending
pub mod Links
pub mod Outputs
pub mod Connected
pub mod Insertion

-- What the signing scripts of the vault offer: the script that an output script pays to, and the
-- switch on its status, with whether the transaction was sent from the vault.
pub record ScriptTable : Type 1 where
  pub Table : Type 0
  pub find : Bytes → Table → Option Receiver
  pub receive : Bool → Bytes → Table → Result Table

pub record Store : Type 0 where
  pub rows : List Row
  pub next_id : ℕ

-- What the loop over the inputs has found so far, and what it starts with.
pub record Checked : Type 0 where
  pub rows : List Row
  pub conflicting_txs : List ℕ
  pub sent_from_vault : Bool
  pub have_all_outpoints : Bool
  pub input_total : ℕ

abbrev pub unchecked : List Row → Checked
unchecked rows = record {
  rows = rows;
  conflicting_txs = [];
  sent_from_vault = false;
  have_all_outpoints = true;
  input_total = 0;
}

unfoldable pub find_hash : Bytes → List Row → Option Row
unfolding bytes_eq
find_hash hash [] = none
find_hash hash (r ∷ rs) =
    let later = find_hash hash rs in if bytes_eq r.tx.hash hash then some r else later

-- `outpoint->spent(txin)`
unfoldable pub put_spender : ℕ → Spender → List TxOut → List TxOut
unfolding set_spent
put_spender i s [] = []
put_spender zero s (t ∷ ts) = set_spent (some s) t ∷ ts
put_spender (suc i) s (t ∷ ts) = t ∷ put_spender i s ts

unfoldable pub put_spender_at : ℕ → ℕ → Spender → List Row → List Row
unfolding put_spender
put_spender_at id i s [] = []
put_spender_at id i s (r ∷ rs) =
    let later = put_spender_at id i s rs in
    if r.id == id
    then record r { tx = record r.tx { txouts = put_spender i s r.tx.txouts } } ∷ rs
    else r ∷ later

abbrev pub with_conflict : Option Spender → List ℕ → List ℕ
with_conflict none conflicts = conflicts
with_conflict (some s) conflicts = s.tx ∷ conflicts

-- An outpoint that has been found, and whether the vault has its script.
unfoldable pub spend_outpoint : Bool → ℕ → TxIn → Row → TxOut → Checked → Checked
unfolding put_spender_at
spend_outpoint mine id txin r outpoint c = record {
  rows =
      if mine
      then put_spender_at r.id txin.outindex (record { tx = id; txin = txin }) c.rows
      else c.rows;
  conflicting_txs = with_conflict outpoint.spender c.conflicting_txs;
  sent_from_vault = c.sent_from_vault || mine;
  have_all_outpoints = c.have_all_outpoints;
  input_total = u64 (c.input_total + outpoint.value);
}

abbrev pub is_known : Option Receiver → Bool
is_known none = false
is_known (some r) = true

unfoldable pub connect_input : (Bytes → Bool) → ℕ → TxIn → Option Row → Checked → Result Checked
unfolding at spend_outpoint
connect_input mine id txin none c = ok (record c { have_all_outpoints = false })
connect_input mine id txin (some r) c = do
  throw_if (leb (length r.tx.txouts) txin.outindex) outpoint_out_of_range
  outpoint ← at r.tx.txouts txin.outindex
  ok (spend_outpoint (mine outpoint.script) id txin r outpoint c)

unfoldable pub check_inputs : (Bytes → Bool) → ℕ → List TxIn → Checked → Result Checked
unfolding connect_input find_hash
check_inputs mine id [] c = ok c
check_inputs mine id (t ∷ ts) c = do
  next ← connect_input mine id t (find_hash t.outhash c.rows) c
  check_inputs mine id ts next

-- `query<TxIn>` for the outpoint of a new output: transactions come out of order.
unfoldable pub find_txin : Bytes → ℕ → ℕ → List TxIn → Option Spender
unfolding bytes_eq
find_txin hash index id [] = none
find_txin hash index id (t ∷ ts) =
    let later = find_txin hash index id ts in
    if bytes_eq t.outhash hash && t.outindex == index
    then some (record { tx = id; txin = t })
    else later

unfoldable pub find_spender : Bytes → ℕ → List Row → Option Spender
unfolding find_txin
find_spender hash index [] = none
find_spender hash index (r ∷ rs) =
    let later = find_spender hash index rs in
    elim (find_txin hash index r.id r.tx.txins) [ none ↦ later | some s ↦ some s ]

unfoldable pub spent_early : Option Spender → TxOut → TxOut
unfolding set_spent
spent_early none t = t
spent_early (some s) t = set_spent (some s) t

abbrev pub is_conflict : ℕ → List ℕ → Bool
is_conflict id [] = false
is_conflict id (c ∷ cs) = c == id || is_conflict id cs

abbrev pub any_conflict : List ℕ → Bool
any_conflict [] = false
any_conflict (c ∷ cs) = true

-- `if (tx->status() >= Tx::SENT) updateConfirmations_unwrapped(tx);`
unfoldable pub confirm_arrived : List MerkleBlock → Tx → Tx
unfolding confirm_in
confirm_arrived blocks tx =
    if leb 4 (status_code tx.status) && not (has_block tx.blockheader)
    then (confirm_in blocks tx).0
    else tx

module _ (scripts : ScriptTable) where
  open scripts use {Table, find, receive}

  -- An output whose script the vault has.
  unfoldable pub receive_output :
      Bool → Bytes → List Row → TxOut → Receiver → Table → Result (TxOut × Table)
  unfolding find_spender spent_early set_signingscript
  receive_output sent_from_vault hash rows t receiver table = do
    paid ← set_signingscript (some receiver) t
    after ← receive sent_from_vault t.script table
    ok (spent_early (find_spender hash t.txindex rows) paid, after)

  -- The outputs, the scripts, whether one of them is paid, and the value of the outputs.
  unfoldable pub check_outputs :
      Bool
      → Bytes
      → List Row
      → List TxOut
      → Table
      → Bool
      → ℕ
      → Result (List TxOut × Table × Bool × ℕ)
  unfolding receive_output
  check_outputs sent_from_vault hash rows [] table to_vault total = ok ([], table, to_vault, total)
  check_outputs sent_from_vault hash rows (t ∷ ts) table to_vault total = do
    let mine = find t.script table
    (paid, next) ← elim mine [
      | none ↦ ok (t, table)
      | some r ↦ receive_output sent_from_vault hash rows t r table
    ]
    (later, after, any, sum) ←
        check_outputs sent_from_vault hash rows ts next (to_vault || is_known mine)
          (u64 (total + t.value))
    ok (paid ∷ later, after, any, sum)

  module _ (hash160 : Bytes → Bytes) (garbage : ℕ) (sha256_2 : Bytes → Bytes) where
    -- One of the conflicting transactions.
    unfoldable pub mark_row : List ℕ → Row → Result Row
    unfolding update_status
    mark_row conflicts r =
        if is_conflict r.id conflicts
          && (not (same_status r.tx.status confirmed) && not (same_status r.tx.status conflicting))
        then (do
          (marked, changed) ← update_status hash160 garbage sha256_2 r.tx conflicting
          ok (record r { tx = marked }))
        else ok r

    unfoldable pub mark_rows : List ℕ → List Row → Result (List Row)
    unfolding mark_row
    mark_rows conflicts [] = ok []
    mark_rows conflicts (r ∷ rs) = do
      marked ← mark_row conflicts r
      later ← mark_rows conflicts rs
      ok (marked ∷ later)

    unfoldable pub mark_arrived : List ℕ → Tx → Result Tx
    unfolding update_status
    mark_arrived conflicts tx =
        if any_conflict conflicts
        then (do
          (marked, changed) ← update_status hash160 garbage sha256_2 tx conflicting
          ok marked)
        else ok tx

    -- The end: the transaction is stored, or `nullptr` is returned and nothing is committed.
    unfoldable pub persist :
        List MerkleBlock
        → Store
        → Table
        → Checked
        → List Row
        → Tx
        → Table
        → Bool
        → ℕ
        → Store × Table × Option Tx
    unfolding confirm_arrived
    persist blocks store table c rows tx after sent_to_vault output_total =
        let fee =
          if c.have_all_outpoints
          then some (u64 (c.input_total + 2 ^ 64 - output_total))
          else tx.fee in
        let arrived = confirm_arrived blocks (record tx { fee = fee }) in
        if c.sent_from_vault || sent_to_vault
        then (
          record {
            rows = record { id = store.next_id; tx = arrived } ∷ rows;
            next_id = store.next_id + 1;
          },
          after,
          some arrived,
        )
        else (store, table, none)

    -- Behind the loop over the inputs.
    unfoldable pub insert_checked :
        List MerkleBlock → Store → Table → Tx → Checked → Result (Store × Table × Option Tx)
    unfolding check_outputs mark_rows mark_arrived persist
    insert_checked blocks store table tx c = do
      (txouts, after, sent_to_vault, output_total) ←
          check_outputs c.sent_from_vault tx.hash store.rows tx.txouts table false 0
      marked ← mark_arrived c.conflicting_txs (record tx { txouts = txouts })
      rows ← mark_rows c.conflicting_txs c.rows
      ok (persist blocks store table c rows marked after sent_to_vault output_total)

    unfoldable pub insert_new :
        List MerkleBlock → Store → Table → Tx → Result (Store × Table × Option Tx)
    unfolding check_inputs insert_checked
    insert_new blocks store table tx = do
      c ←
          check_inputs (λ script. is_known (find script table)) store.next_id tx.txins
            (unchecked store.rows)
      insert_checked blocks store table tx c
