-- ===== src/Tests/LedgerTests.antt =====
-- Blocks that arrive at the vault: a first one, its successor with a transaction, and a block that
-- replaces the successor.
use coin_vault.Common.{Bytes, ℕ, ◌≡◌, refl, true, some, List, [], ◌∷◌, arith, ok}
use coin_vault.Vault.Blocks.{MerkleBlock}
use coin_vault.Vault.Tx.{Tx, Status, confirmed, new, propagated}
use coin_vault.Vault.Ledger.{Ledger, insert_merkle_block, update_confirmations}
use coin_vault.Vault.Ledger.Links.{Arrived, insert_merkle_block_lem}
use coin_vault.Vault.Ledger.Reach.{
  arrived, paid, Reachable, empty, then, IsSettled, Reachable-IsSettled,
}

abbrev block : ℕ → ℕ → ℕ → List Bytes → MerkleBlock
block id prev height hashes = record {
  blockheader = record {
    hash = id ∷ [];
    height = height;
    version = 2;
    prevhash = prev ∷ [];
    merkleroot = [];
    timestamp = 1000;
    bits = 0;
    nonce = 0;
  };
  txcount = 1;
  hashes = hashes;
  flags = [];
}

-- A transaction that the network knows.
abbrev payment : Tx
unfolding new
payment = record new { hash = 7 ∷ []; status = propagated }

-- Two accounts, and the horizon six hours before the first one.
abbrev account_times : List ℕ
account_times = 25000 ∷ 23000 ∷ []

abbrev outcome : Ledger → MerkleBlock → Ledger
unfolding insert_merkle_block
outcome before b = elim (insert_merkle_block account_times b before.blocks before.txs) [
  | ok (after, returned) ↦ after
  | _ ↦ before
]

abbrev started : Ledger
started = record { blocks = []; txs = payment ∷ [] }

abbrev one_block : Ledger
one_block = outcome started (block 10 9 100 [])

-- The height that comes with a later block is not kept.
abbrev two_blocks : Ledger
two_blocks = outcome one_block (block 11 10 5 ((7 ∷ []) ∷ []))

abbrev replaced : Ledger
replaced = outcome two_blocks (block 12 10 5 [])

first_block :
    insert_merkle_block account_times (block 10 9 100 []) [] (payment ∷ []) ≡ ok (one_block, true)
unfolding insert_merkle_block payment
first_block = refl

second_block :
    insert_merkle_block account_times (block 11 10 5 ((7 ∷ []) ∷ [])) one_block.blocks one_block.txs
    ≡ ok (two_blocks, true)
unfolding insert_merkle_block payment
second_block = refl

other_block :
    insert_merkle_block account_times (block 12 10 5 []) two_blocks.blocks two_blocks.txs
    ≡ ok (replaced, true)
unfolding insert_merkle_block payment
other_block = refl

statuses : List Tx → List Status
statuses [] = []
statuses (t ∷ ts) = t.status ∷ statuses ts

confirmed_by_second : statuses two_blocks.txs ≡ confirmed ∷ []
unfolding insert_merkle_block payment statuses
confirmed_by_second = refl

unconfirmed_by_other : replaced.txs ≡ payment ∷ []
unfolding insert_merkle_block payment
unconfirmed_by_other = refl

insert_merkle_block_lem_example :
    Arrived (block 12 10 5 []) two_blocks.blocks two_blocks.txs replaced true
unfolding insert_merkle_block payment
insert_merkle_block_lem_example =
    insert_merkle_block_lem account_times (block 12 10 5 []) two_blocks.blocks two_blocks.txs
      replaced true (((refl, refl), (tt, tt))) (omega arith) other_block

history : Reachable replaced
unfolding insert_merkle_block payment
history =
    then
      (then
        (then (then empty (paid _ payment refl))
          (arrived account_times (block 10 9 100 []) true tt first_block))
        (arrived account_times (block 11 10 5 ((7 ∷ []) ∷ [])) true (omega arith) second_block))
      (arrived account_times (block 12 10 5 []) true (omega arith) other_block)

Reachable-IsSettled_example : IsSettled replaced
unfolding payment
Reachable-IsSettled_example = Reachable-IsSettled replaced history

-- A transaction that arrives after its block.
abbrev late : Ledger
late = record two_blocks { txs = payment ∷ two_blocks.txs }

late_confirmed : (update_confirmations (some (7 ∷ [])) late).1 ≡ 1
unfolding update_confirmations payment insert_merkle_block
late_confirmed = refl
