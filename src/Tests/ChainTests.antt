-- ===== src/Tests/ChainTests.antt =====
-- A tree of a genesis block and one child, with the nonce as a toy hash.
use coin_vault.Common.{
  Bytes, length, ℕ, ◌+◌, ◌≤◌, max, ◌≡◌, refl, ◌≢◌, ◌⊎◌, Bool, true, false, none, some, List, [],
  ◌∷◌, arith, Result, fault, stuck, err, ok,
}
use coin_vault.Wire.BlockHeader.{BlockHeader}
use coin_vault.Chain.Work.{get_work}
use coin_vault.Chain.Headers.{ChainHeader, BlockTree, find, has_header}
use coin_vault.Chain.BestChain.{best_child, unset_loop, unset_loop-stuck}
use coin_vault.Chain.Delete.{delete_header, delete_header-fault}
use coin_vault.Chain.Lookup.{get_locator_hashes, length-get_locator_hashes}
use coin_vault.Chain.Insert.{set_genesis_block, insert_header, insert_header_lem}

abbrev toy_hash : BlockHeader → Bytes
toy_hash h = h.nonce ∷ []

abbrev toy_pow : BlockHeader → ℕ
toy_pow h = h.nonce

abbrev block : ℕ → ℕ → BlockHeader
block parent nonce = record {
  version = 1;
  prev_block_hash = parent ∷ [];
  merkle_root = [];
  timestamp = 0;
  bits = 0x207fffff;
  nonce = nonce;
}

abbrev empty_tree : BlockTree
empty_tree = record {
  headers = [];
  heights = [];
  best_height = none;
  total_work = 0;
  head = none;
  check_proof_of_work = true;
  notices = [];
}

abbrev tree_of : Result BlockTree → BlockTree
tree_of (ok t) = t
tree_of (err e) = empty_tree
tree_of fault = empty_tree
tree_of stuck = empty_tree

abbrev tree_in : Result (BlockTree × Bool) → BlockTree
tree_in (ok (t, added)) = t
tree_in (err e) = empty_tree
tree_in fault = empty_tree
tree_in stuck = empty_tree

abbrev genesis_tree : BlockTree
unfolding set_genesis_block
genesis_tree = tree_of (set_genesis_block toy_hash toy_pow empty_tree (block 0 1))

abbrev grown_tree : BlockTree
unfolding insert_header genesis_tree
grown_tree = tree_in (insert_header toy_hash toy_pow 5 genesis_tree (block 1 2) true)

grows : insert_header toy_hash toy_pow 5 genesis_tree (block 1 2) true ≡ ok (grown_tree, true)
unfolding insert_header genesis_tree grown_tree
grows = refl

insert_header_lem_example :
    ((has_header genesis_tree (2 ∷ []) ≡ true) × (true ≡ false) × (grown_tree ≡ genesis_tree))
    ⊎ ((has_header genesis_tree (2 ∷ []) ≡ false)
        × (true ≡ true)
        × (parent : ChainHeader) × (find (1 ∷ []) genesis_tree.headers ≡ some parent)
        × (grown_tree.total_work
            ≡ max genesis_tree.total_work (parent.chain_work + get_work (block 1 2))))
insert_header_lem_example =
    insert_header_lem toy_hash toy_pow 5 genesis_tree (block 1 2) true grown_tree true grows

-- A child that is stored and not in the best chain.
abbrev side_leaf : ChainHeader
side_leaf = record {
  header = block 1 2;
  in_best_chain = false;
  height = 1;
  chain_work = 2;
  child_hashes = [];
}

abbrev side_tree : BlockTree
unfolding genesis_tree
side_tree = record genesis_tree { headers = (2 ∷ [], side_leaf) ∷ [] }

no_best_child : best_child side_tree ((2 ∷ []) ∷ []) ≡ ok none
unfolding best_child side_tree genesis_tree
no_best_child = refl

unset_loop-stuck_example : unset_loop 100 ((2 ∷ []) ∷ []) side_tree ≡ stuck
unset_loop-stuck_example = unset_loop-stuck 100 (2 ∷ []) [] side_tree no_best_child

stored : find (2 ∷ []) side_tree.headers ≡ some side_leaf
unfolding find side_tree genesis_tree
stored = refl

delete_header-fault_example : delete_header toy_hash 8 (2 ∷ []) side_tree ≡ fault
delete_header-fault_example =
    delete_header-fault toy_hash 7 (2 ∷ []) side_tree side_leaf stored refl refl refl

length-get_locator_hashes_example :
    (get_locator_hashes toy_hash (some 3) genesis_tree ≢ stuck)
    × ((hashes : List Bytes)
        → get_locator_hashes toy_hash (some 3) genesis_tree ≡ ok hashes
        → length hashes ≤ 3)
length-get_locator_hashes_example = length-get_locator_hashes toy_hash 3 genesis_tree (omega arith)
