-- ===== src/Tests/ArrivalsTests.antt =====
-- A transaction arrives, then one that spends its output; the first one is deleted.
use coin_vault.Common.{Bytes, ℕ, ◌+◌, ◌≡◌, refl, false, none, some, [], ◌∷◌, tx_not_found, err, ok}
use coin_vault.Vault.Inputs.{TxIn}
use coin_vault.Vault.Outputs.{TxOut, Receiver, unspent, spent}
use coin_vault.Vault.Tx.{Tx, new, confirmed, update_status}
use coin_vault.Vault.DeleteTx.{Row, find_row}
use coin_vault.Vault.DeleteTx.Counts.{count_spent}
use coin_vault.Vault.Arrivals.{ScriptTable, Store, find_spender}
use coin_vault.Vault.Entry.{delete_hash, insert_tx, find_either}
use coin_vault.Vault.Arrivals.Connected.{IsConnected}
use coin_vault.Vault.Entry.Reach.{
  Reachable, empty, next, inserted, Reachable-IsConnected, delete_hash_total,
}

abbrev receiver : Receiver
receiver = record { txoutscript = 1 ∷ []; account = 0; label = []; account_bin = 0 }

-- Every output pays to the vault; the table counts the outputs.
abbrev scripts : ScriptTable
scripts = record {
  Table = ℕ;
  find = λ script table. some receiver;
  receive = λ sent script table. ok (table + 1);
}

abbrev no_hash : Bytes → Bytes
no_hash bytes = []

abbrev output : ℕ → TxOut
output value = record {
  value = value;
  script = 1 ∷ [];
  txindex = 0;
  spender = none;
  receiver = none;
  status = unspent;
}

abbrev input : Bytes → TxIn
input outhash = record { outhash = outhash; outindex = 0; script = []; sequence = 0; txindex = 0 }

abbrev funding : Tx
unfolding new
funding = record new {
  hash = 7 ∷ [];
  unsigned_hash = 6 ∷ [];
  txins = input (9 ∷ []) ∷ [];
  txouts = output 5 ∷ [];
}

abbrev payment : Tx
unfolding new
payment = record new {
  hash = 8 ∷ [];
  unsigned_hash = 9 ∷ [];
  txins = input (7 ∷ []) ∷ [];
  txouts = output 3 ∷ [];
}

abbrev nothing : Store
nothing = record { rows = []; next_id = 0 }

abbrev funding_row : Row
unfolding new
funding_row = record {
  id = 0;
  tx = record funding { txouts = record (output 5) { receiver = some receiver } ∷ [] };
}

abbrev funded : Store
funded = record { rows = funding_row ∷ []; next_id = 1 }

abbrev paid_row : Row
paid_row = record {
  id = 1;
  tx = record payment {
    txouts = record (output 3) { receiver = some receiver } ∷ [];
    fee = some 2;
  };
}

abbrev spent_row : Row
spent_row = record {
  id = 0;
  tx = record funding {
    txouts =
        record (output 5) {
          receiver = some receiver;
          spender = some (record { tx = 1; txin = input (7 ∷ []) });
          status = spent;
        }
        ∷ [];
  };
}

abbrev both : Store
both = record { rows = paid_row ∷ spent_row ∷ []; next_id = 2 }

funding_stored :
    insert_tx scripts no_hash 0 no_hash [] nothing 0 funding ≡ ok (funded, 1, some funding_row.tx)
unfolding insert_tx funding
funding_stored = refl

payment_stored :
    insert_tx scripts no_hash 0 no_hash [] funded 1 payment ≡ ok (both, 2, some paid_row.tx)
unfolding insert_tx payment funding
payment_stored = refl

-- The payment arrives again, with a later status.
payment_confirmed :
    insert_tx scripts no_hash 0 no_hash [] both 2 (record payment { status = confirmed })
    ≡ ok (
      record both {
        rows = record paid_row { tx = record paid_row.tx { status = confirmed } } ∷ spent_row ∷ [];
      },
      2,
      some (record paid_row.tx { status = confirmed }),
    )
unfolding insert_tx payment funding
payment_confirmed = refl

both_reached : Reachable scripts no_hash 0 no_hash both
unfolding find_spender funding payment update_status
both_reached =
    next
      (next empty (
        inserted [] 0 1 funding funding false _ refl (λ e. ((refl, tt), (refl, tt), λ index. refl))
          funding_stored))
      (inserted [] 1 2 payment payment false _ refl (λ e. ((refl, tt), (refl, tt), λ index. refl))
        payment_stored)

Reachable-IsConnected_example : IsConnected both
Reachable-IsConnected_example = Reachable-IsConnected scripts no_hash 0 no_hash both both_reached

delete_hash_total_example :
    (after : Store) × (delete_hash (7 ∷ []) both ≡ ok after)
    × IsConnected after
    × (find_row 0 after.rows ≡ none)
    × ((l : ℕ) → count_spent 0 l after.rows ≡ 0)
unfolding find_either funding
delete_hash_total_example =
    delete_hash_total scripts no_hash 0 no_hash both (7 ∷ []) spent_row both_reached refl

-- The payment is deleted with the funding; without it, its outpoint is unspent again.
funding_deleted : delete_hash (7 ∷ []) both ≡ ok (record both { rows = [] })
unfolding delete_hash payment funding
funding_deleted = refl

payment_deleted : delete_hash (9 ∷ []) both ≡ ok (record both { rows = funding_row ∷ [] })
unfolding delete_hash payment funding
payment_deleted = refl

unknown_deleted : delete_hash (5 ∷ []) both ≡ err tx_not_found
unfolding delete_hash payment funding
unknown_deleted = refl
