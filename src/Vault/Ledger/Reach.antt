-- ===== src/Vault/Ledger/Reach.antt =====
-- What holds of the blocks of the vault through all that arrives: blocks, deletions of blocks,
-- transactions that are in no block yet, and updates of their confirmations.
use coin_vault.Common.{
  Bytes, u32, ℕ, ◌+◌, ◌≡◌, refl, ap, inl, inr, Bool, true, ◌||◌, Option, none, some, List, [], ◌∷◌,
  ltb, ◌==◌, if_cases, >>=-eq-ok, ok-injective, ok,
}
use coin_vault.Vault.Blocks.{MerkleBlock}
use coin_vault.Vault.Tx.{Tx}
use coin_vault.Vault.Ledger.{
  Ledger, is_some, find_block, delete_merkle_block, confirm, connect, max_first_block_timestamp,
  insert_first, insert_merkle_block, update_confirmations,
}
use coin_vault.Vault.Ledger.Links.{
  IsChain, raised, HasRoom, delete_rows-IsChain, insert_merkle_block_lem,
}
use coin_vault.Vault.Ledger.Updates.{update_rows-AllHeld}
use coin_vault.Vault.Ledger.Confirmations.{
  AllHeld, delete_rows-AllHeld, confirm-AllHeld, AllHeld-cons,
}

infix 40 ◌⟶◌
pub data ◌⟶◌ : Ledger → Ledger → Type 0 where
  arrived :
      {before after : Ledger} (times : List ℕ) (block : MerkleBlock) (returned : Bool)
      → HasRoom before.blocks
      → insert_merkle_block times block before.blocks before.txs ≡ ok (after, returned)
      → before ⟶ after
  deleted : (before : Ledger) (height : ℕ) → before ⟶ (delete_merkle_block height before).0
  updated : (before : Ledger) (only : Option Bytes) → before ⟶ (update_confirmations only before).0
  paid :
      (before : Ledger) (tx : Tx)
      → tx.blockheader ≡ none
      → before ⟶ record before { txs = tx ∷ before.txs }

-- A vault with no block and no transaction, and what happens to it.
pub data Reachable : Ledger → Type 0 where
  empty : Reachable (record { blocks = []; txs = [] })
  then : {before after : Ledger} → Reachable before → before ⟶ after → Reachable after

-- Every transaction in a block is in a stored one, and the stored ones form a chain.
abbrev pub IsSettled : Ledger → Type 0
IsSettled ledger = IsChain ledger.blocks × AllHeld [] ledger.blocks ledger.txs

delete-IsSettled :
    (height : ℕ) (ledger : Ledger)
    → IsSettled ledger
    → IsSettled (delete_merkle_block height ledger).0
unfolding delete_merkle_block
delete-IsSettled height ledger settled = (
  delete_rows-IsChain height ledger.blocks ledger.txs settled.0,
  delete_rows-AllHeld height [] ledger.blocks ledger.txs settled.1,
)

update-IsSettled :
    (only : Option Bytes) (ledger : Ledger)
    → IsSettled ledger
    → IsSettled (update_confirmations only ledger).0
unfolding update_confirmations
update-IsSettled only ledger settled =
    (settled.0, update_rows-AllHeld only ledger.blocks ledger.txs settled.1)

connect-AllHeld :
    (block : MerkleBlock) (parent : Option MerkleBlock) (ledger : Ledger) {after : Ledger}
    {returned : Bool}
    → AllHeld [] ledger.blocks ledger.txs
    → connect block parent ledger ≡ ok (after, returned)
    → AllHeld [] after.blocks after.txs
unfolding connect delete_merkle_block
connect-AllHeld block none ledger held returns =
    rw (← ap (λ (q : Ledger × Bool). q.0) (ok-injective returns)) held
connect-AllHeld block (some parent) ledger held returns =
    let height = u32 (parent.blockheader.height + 1) in
    let new = raised block height in
    let left = (delete_merkle_block height ledger).0 in
    let (txs, confirmed, result) =
      >>=-eq-ok (confirm new.blockheader block.hashes left.txs)
        (λ (txs : List Tx). ok (record { blocks = new ∷ left.blocks; txs = txs }, true)) returns in
    rw (← ap (λ (q : Ledger × Bool). q.0) (ok-injective result)) (
      confirm-AllHeld new block.hashes left.blocks left.txs
        (delete_rows-AllHeld height [] ledger.blocks ledger.txs held) confirmed)

first-AllHeld :
    (newest_first : ℕ) (block : MerkleBlock) (txs : List Tx) {after : Ledger} {returned : Bool}
    → AllHeld [] [] txs
    → insert_first newest_first block (record { blocks = []; txs = txs }) ≡ (after, returned)
    → AllHeld [] after.blocks after.txs
unfolding insert_first
first-AllHeld newest_first block txs held e =
    elim (if_cases
      (newest_first == 0
        || (ltb newest_first block.blockheader.timestamp || block.blockheader.height == 0))
      e) [
        | inl (_, kept) ↦ rw (← ap (λ (q : Ledger × Bool). q.0) kept) held
        | inr (_, first) ↦
            rw (← ap (λ (q : Ledger × Bool). q.0) first) (AllHeld-cons block [] txs held)
      ]

insert-AllHeld :
    (times : List ℕ) (block : MerkleBlock) (blocks : List MerkleBlock) (txs : List Tx)
    {after : Ledger} {returned : Bool}
    → AllHeld [] blocks txs
    → insert_merkle_block times block blocks txs ≡ ok (after, returned)
    → AllHeld [] after.blocks after.txs
unfolding insert_merkle_block
insert-AllHeld times block [] txs held returns =
    first-AllHeld (max_first_block_timestamp times) block txs held (ok-injective returns)
insert-AllHeld times block (b ∷ bs) txs held returns =
    elim (if_cases (is_some (find_block block.blockheader.hash (b ∷ bs))) returns) [
      | inl (_, known) ↦ rw (← ap (λ (q : Ledger × Bool). q.0) (ok-injective known)) held
      | inr (_, new) ↦ connect-AllHeld block _ (record { blocks = b ∷ bs; txs = txs }) held new
    ]

⟶-IsSettled : {before after : Ledger} → before ⟶ after → IsSettled before → IsSettled after
⟶-IsSettled {before} {after} (arrived times block returned room returns) settled = (
  (insert_merkle_block_lem times block before.blocks before.txs after returned settled.0 room
      returns).0,
  insert-AllHeld times block before.blocks before.txs settled.1 returns,
)
⟶-IsSettled (deleted before height) settled = delete-IsSettled height before settled
⟶-IsSettled (updated before only) settled = update-IsSettled only before settled
⟶-IsSettled (paid before tx apart) settled = (settled.0, (rw apart refl, settled.1))

-- From a vault without blocks and transactions on, after every sequence of blocks that arrive,
-- deletions of blocks, updates of confirmations and new transactions that are in no block, the
-- stored blocks form a chain (each names the one behind it as its parent and stands one higher),
-- and every transaction that is in a block is in a stored one. Whenever a block arrives, the
-- stored tip is below the largest height of 32 bits.
pub Reachable-IsSettled : (ledger : Ledger) → Reachable ledger → IsSettled ledger
Reachable-IsSettled ledger empty = (tt, tt)
Reachable-IsSettled ledger (then earlier step) = ⟶-IsSettled step (Reachable-IsSettled _ earlier)
