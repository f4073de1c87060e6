-- ===== src/Chain/Delete.antt =====
-- CoinQBlockTreeMem::deleteHeader. An assertion that fails is a fault.
use coin_vault.Common.{
  Bytes, bytes_eq, ℕ, zero, suc, ◌+◌, ◌≡◌, refl, Bool, true, false, Option, none, some, List, [],
  ◌∷◌, ◌==◌, if◌then◌else◌, Result, ◌>>=◌, no_parent, fault, stuck, ok,
}
use coin_vault.Wire.BlockHeader.{BlockHeader}
use coin_vault.Chain.Headers.{ChainHeader, BlockTree, delete, find, or_throw, notify, store}
use coin_vault.Chain.BestChain.{unset_best_chain}

-- `childHashes.erase(hash)`, and how many hashes it has erased.
unfoldable pub erase_hash : Bytes → List Bytes → List Bytes × ℕ
unfolding bytes_eq
erase_hash hash [] = ([], 0)
erase_hash hash (h ∷ hashes) =
    let (kept, erased) = erase_hash hash hashes in
    if bytes_eq h hash then (kept, erased + 1) else (h ∷ kept, erased)

-- `mHeaderHashMap.erase(hash)`
unfoldable pub erase_header : Bytes → List (Bytes × ChainHeader) → List (Bytes × ChainHeader)
unfolding bytes_eq
erase_header hash [] = []
erase_header hash ((key, h) ∷ entries) =
    let rest = erase_header hash entries in if bytes_eq key hash then rest else (key, h) ∷ rest

-- The loop over the children.
unfoldable pub delete_children :
    (Bytes → BlockTree → Result (BlockTree × Bool)) → List Bytes → BlockTree → Result BlockTree
delete_children delete_child [] t = ok t
delete_children delete_child (hash ∷ hashes) t = do
  (left, done) ← delete_child hash t
  delete_children delete_child hashes left

-- What is left of deleteHeader behind that loop, with what `itParent` points to then.
unfoldable pub detach :
    Bytes → Bytes → ChainHeader → BlockTree → Option ChainHeader → Result (BlockTree × Bool)
unfolding erase_hash erase_header store notify
detach key hash h t none = fault
detach key hash h t (some parent) =
    let (kept, erased) = erase_hash hash parent.child_hashes in
    let told = notify (delete h.header) (store key (record parent { child_hashes = kept }) t) in
    if erased == 1
    then ok (record told { headers = erase_header hash told.headers }, true)
    else fault

-- A header outside the best chain is left alone.
unset_side :
    (fuel : ℕ) (key : Bytes) (h : ChainHeader) (t : BlockTree)
    → h.in_best_chain ≡ false
    → unset_best_chain fuel key h t ≡ ok (t, false)
unfolding unset_best_chain
unset_side fuel key h t side = rw side refl

-- A header without children is not found among its own children.
detach_leaf :
    (hash : Bytes) (h : ChainHeader) (t : BlockTree)
    → h.child_hashes ≡ []
    → detach hash hash h t (some h) ≡ fault
unfolding detach
detach_leaf hash h t leaf = rw leaf refl

no_children :
    (delete_child : Bytes → BlockTree → Result (BlockTree × Bool)) (hashes : List Bytes)
    (t : BlockTree)
    → hashes ≡ []
    → delete_children delete_child hashes t ≡ ok t
unfolding delete_children
no_children delete_child [] t e = refl
no_children delete_child (hash ∷ hashes) t e = absurd (cc e)

module _ (get_hash : BlockHeader → Bytes) where
  -- `itParent` is looked up under the hash of the header itself. `delete_child` is the recursive call.
  unfoldable pub delete_found :
      (Bytes → BlockTree → Result (BlockTree × Bool))
      → ℕ
      → Bytes
      → BlockTree
      → Option ChainHeader
      → Result (BlockTree × Bool)
  unfolding find unset_best_chain delete_children detach
  delete_found delete_child fuel hash t none = ok (t, false)
  delete_found delete_child fuel hash t (some h) = do
    (left, done) ← unset_best_chain fuel hash h t
    parent ← or_throw no_parent (find (get_hash h.header) left.headers)
    alone ← delete_children delete_child h.child_hashes left
    detach (get_hash h.header) hash h alone (find (get_hash h.header) alone.headers)

  unfoldable pub delete_header : ℕ → Bytes → BlockTree → Result (BlockTree × Bool)
  unfolding find delete_found
  delete_header zero hash t = stuck
  delete_header (suc fuel) hash t =
      delete_found (delete_header fuel) fuel hash t (find hash t.headers)

  -- When a header is stored under its own hash, is outside the best chain and has no children,
  -- deleteHeader looks for the header among its own children and its assertion fails.
  pub delete_header-fault :
      (fuel : ℕ) (hash : Bytes) (t : BlockTree) (h : ChainHeader)
      → find hash t.headers ≡ some h
      → get_hash h.header ≡ hash
      → h.in_best_chain ≡ false
      → h.child_hashes ≡ []
      → delete_header (suc fuel) hash t ≡ fault
  unfolding delete_header delete_found
  delete_header-fault fuel hash t h found own side leaf =
      rw
        (
          found,
          unset_side fuel hash h t side,
          own,
          found,
          no_children (delete_header fuel) h.child_hashes t leaf,
          found,
        )
        (detach_leaf hash h t leaf)
