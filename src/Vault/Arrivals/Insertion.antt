-- ===== src/Vault/Arrivals/Insertion.antt =====
-- An arrival in order keeps the stored transactions connected: insert_new of Vault.Arrivals
-- (insertTx_unwrapped of CoinDB/src/Vault.cpp).
use coin_vault.Common.{
  Bytes, length, u64, ℕ, ◌+◌, ◌-◌, ◌^◌, ◌≡◌, sym, ◌∙◌, inl, inr, Bool, false, ◌||◌, Option, some,
  List, ◌∷◌, if◌then◌else◌, Bool-cases, ◌>>=◌, >>=-eq-ok, ok-injective, ok,
}
use mathlib.Core.Path.{subst}
use coin_vault.Vault.Blocks.{MerkleBlock}
use coin_vault.Vault.Outputs.{TxOut}
use coin_vault.Vault.Tx.{Tx}
use coin_vault.Vault.DeleteTx.{Row}
use coin_vault.Vault.Arrivals.{
  ScriptTable, Store, Checked, is_known, check_inputs, check_outputs, mark_rows, mark_arrived,
  unchecked, persist, insert_checked, insert_new,
}
use coin_vault.Vault.Arrivals.Spending.{Grown, IsNumbered, check_inputs-Grown}
use coin_vault.Vault.Arrivals.Outputs.{AllUnspent, InOrder, check_outputs-AllUnspent}
use coin_vault.Vault.Arrivals.Links.{
  SameEnds, mark_rows-Kept, mark_arrived-SameEnds, confirm_arrived-SameEnds,
}
use coin_vault.Vault.Arrivals.Connected.{IsConnected, added-IsConnected}

-- An arrival in order: the inputs of the new transaction are numbered, none of its outputs is spent
-- yet, and no stored input refers to it.
abbrev pub Arrives : Store → Tx → Type 0
Arrives store tx = IsNumbered 0 tx.txins × AllUnspent tx.txouts × InOrder tx.hash store.rows

module _ (scripts : ScriptTable) (hash160 : Bytes → Bytes) (garbage : ℕ)
    (sha256_2 : Bytes → Bytes) where
  open scripts use {Table, find}

  persist-IsConnected :
      (blocks : List MerkleBlock) (store : Store) (table : Table) (c : Checked) (rows : List Row)
      (tx : Tx) (after : Table) (to_vault : Bool) (total : ℕ)
      → IsConnected store
      → ((arrived : Tx)
          → SameEnds tx arrived
          → IsConnected (record {
            rows = record { id = store.next_id; tx = arrived } ∷ rows;
            next_id = store.next_id + 1;
          }))
      → IsConnected
          (persist scripts hash160 garbage sha256_2 blocks store table c rows tx after to_vault
            total).0
  unfolding persist
  persist-IsConnected blocks store table c rows tx after to_vault total sound added =
      let fee =
        if c.have_all_outpoints then some (u64 (c.input_total + 2 ^ 64 - total)) else tx.fee in
      elim (Bool-cases (c.sent_from_vault || to_vault)) [
        | inl e ↦ rw e (added _ (confirm_arrived-SameEnds blocks (record tx { fee = fee })))
        | inr e ↦ rw e sound
      ]

  insert_checked-IsConnected :
      (blocks : List MerkleBlock) (store : Store) (table : Table) (tx : Tx) (c : Checked)
      (q : Store × Table × Option Tx)
      → IsConnected store
      → Arrives store tx
      → Grown store.next_id 0 (0 + length tx.txins) store.rows c.rows
      → insert_checked scripts hash160 garbage sha256_2 blocks store table tx c ≡ ok q
      → IsConnected q.0
  unfolding insert_checked
  insert_checked-IsConnected blocks store table tx c q sound (numbered, unspent, in_order) grown
        returns =
      let mark = mark_arrived scripts hash160 garbage sha256_2 c.conflicting_txs in
      let mark_stored = mark_rows scripts hash160 garbage sha256_2 c.conflicting_txs c.rows in
      let (r, checked, rest) =
        >>=-eq-ok
          (check_outputs scripts c.sent_from_vault tx.hash store.rows tx.txouts table false 0)
          (λ (r : List TxOut × Table × Bool × ℕ). do
            marked ← mark (record tx { txouts = r.0 })
            rows ← mark_stored
            ok (
                persist scripts hash160 garbage sha256_2 blocks store table c rows marked r.1 r.2
                  r.3))
          returns in
      let (marked, arrived, rest') =
        >>=-eq-ok (mark (record tx { txouts = r.0 }))
          (λ (marked : Tx). do
            rows ← mark_stored
            ok (
                persist scripts hash160 garbage sha256_2 blocks store table c rows marked r.1 r.2
                  r.3))
          rest in
      let (rows, stored, result) =
        >>=-eq-ok mark_stored
          (λ (rows : List Row).
            ok (
              persist scripts hash160 garbage sha256_2 blocks store table c rows marked r.1 r.2
                r.3))
          rest' in
      let outs =
        check_outputs-AllUnspent scripts c.sent_from_vault tx.hash store.rows tx.txouts table false
          0 r in_order unspent checked in
      let ends =
        mark_arrived-SameEnds hash160 garbage sha256_2 scripts c.conflicting_txs
          (record tx { txouts = r.0 }) arrived in
      let kept = mark_rows-Kept hash160 garbage sha256_2 scripts c.conflicting_txs c.rows stored in
      subst (λ (q : Store × Table × Option Tx). IsConnected q.0) (ok-injective result)
        (persist-IsConnected blocks store table c rows marked r.1 r.2 r.3 sound (λ last same.
          added-IsConnected store c.rows rows tx.txins last sound numbered grown kept
            (same.0 ∙ ends.0)
            (subst (λ (ts : List TxOut). AllUnspent ts) (sym (same.1 ∙ ends.1)) outs)))

  pub insert_new-IsConnected :
      (blocks : List MerkleBlock) (store : Store) (table : Table) (tx : Tx)
      (q : Store × Table × Option Tx)
      → IsConnected store
      → Arrives store tx
      → insert_new scripts hash160 garbage sha256_2 blocks store table tx ≡ ok q
      → IsConnected q.0
  unfolding insert_new
  insert_new-IsConnected blocks store table tx q sound arrives returns =
      let mine = λ (script : Bytes). is_known (find script table) in
      let (c, checked, rest) =
        >>=-eq-ok (check_inputs mine store.next_id tx.txins (unchecked store.rows))
          (λ (c : Checked). insert_checked scripts hash160 garbage sha256_2 blocks store table tx c)
          returns in
      let grown =
        check_inputs-Grown mine store.next_id 0 tx.txins (unchecked store.rows) arrives.0 checked in
      insert_checked-IsConnected blocks store table tx c q sound arrives grown rest
