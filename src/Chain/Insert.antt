-- ===== src/Chain/Insert.antt =====
-- CoinQBlockTreeMem::setGenesisBlock, insertHeader and clear.
use coin_vault.Common.{
  Bytes, length, ℕ, ◌+◌, max, ◌≡◌, refl, ◌⊎◌, inl, inr, Bool, true, false, ◌&&◌, none, some, [],
  ◌∷◌, arith, ltb, ◌==◌, if◌then◌else◌, if_cases, Result, ◌>>=◌, ◌>>◌, throw_if, >>=-eq-ok,
  not_empty, no_genesis, no_parent, hash_too_big, ok,
}
use coin_vault.Wire.BlockHeader.{BlockHeader}
use coin_vault.Chain.Work.{get_target, get_work}
use coin_vault.Chain.Headers.{
  ChainHeader, BlockTree, insert, add_best_chain, find, insert_hash, or_throw, or_throw-ok,
  has_header, notify, store, erase_height,
}
use coin_vault.Chain.BestChain.{set_best_chain, set_best_chain-total_work}

-- A header that has just been put into the map. Its height, -1 in the code, is set before it is read.
abbrev pub fresh : BlockHeader → ChainHeader
fresh h = record {
  header = h;
  in_best_chain = false;
  height = 0;
  chain_work = 0;
  child_hashes = [];
}

unfoldable pub clear : BlockTree → BlockTree
clear t = record t { headers = []; heights = []; best_height = none; total_work = 0; head = none }

-- `get_hash` stands for getHashLittleEndian, and `pow_number` for the number that
-- getPOWHashLittleEndian gives.
module _ (get_hash : BlockHeader → Bytes) (pow_number : BlockHeader → ℕ) where
  unfoldable pub set_genesis_block : BlockTree → BlockHeader → Result BlockTree
  unfolding get_work store notify erase_height
  set_genesis_block t h = do
    throw_if (ltb 0 (length t.headers)) not_empty
    let key = get_hash h
    let genesis = record (fresh h) { in_best_chain = true; chain_work = get_work h }
    let stored = store key genesis t
    let placed = record stored {
      heights = (0, key) ∷ erase_height 0 t.heights;
      best_height = some 0;
      total_work = genesis.chain_work;
      head = some key;
    }
    ok (notify (add_best_chain h) (notify (insert h) placed))

  -- The header below its parent.
  abbrev child_of : ChainHeader → BlockHeader → ChainHeader
  unfolding get_work
  child_of parent h = record (fresh h) {
    height = parent.height + 1;
    chain_work = parent.chain_work + get_work h;
  }

  -- The map with the new header, which its parent names among its children.
  unfoldable pub attach : BlockTree → ChainHeader → BlockHeader → BlockTree
  unfolding store insert_hash notify child_of
  attach t parent h =
      let key = get_hash h in
      let known = record parent { child_hashes = insert_hash key parent.child_hashes } in
      notify (insert h) (store h.prev_block_hash known (store key (child_of parent h) t))

  -- `setBestChain(chainHeader); return true;`, where `fuel` bounds the walks over the tree.
  unfoldable pub accept : ℕ → BlockTree → ChainHeader → BlockHeader → Result (BlockTree × Bool)
  unfolding set_best_chain attach child_of
  accept fuel t parent h = do
    (chosen, done) ← set_best_chain fuel (get_hash h) (child_of parent h) (attach t parent h)
    ok (chosen, true)

  unfoldable pub insert_header : ℕ → BlockTree → BlockHeader → Bool → Result (BlockTree × Bool)
  unfolding has_header find get_target attach accept child_of
  insert_header fuel t h check = do
    throw_if (length t.headers == 0) no_genesis
    let key = get_hash h
    if has_header t key then ok (t, false) else (do
      parent ← or_throw no_parent (find h.prev_block_hash t.headers)
      throw_if (check && t.check_proof_of_work && ltb (get_target h) (pow_number h)) hash_too_big
      let attached = attach t parent h
      if ltb t.total_work (child_of parent h).chain_work
          then accept fuel t parent h
          else ok (attached, true))

  -- What insertHeader has found out and done when it returns.
  abbrev Inserted : BlockTree → BlockHeader → BlockTree → Bool → Type 0
  Inserted t h t' added =
      ((has_header t (get_hash h) ≡ true) × (added ≡ false) × (t' ≡ t))
      ⊎ ((has_header t (get_hash h) ≡ false)
          × (added ≡ true)
          × (parent : ChainHeader) × (find h.prev_block_hash t.headers ≡ some parent)
          × (t'.total_work ≡ max t.total_work (parent.chain_work + get_work h)))

  attach-total_work :
      (t : BlockTree) (parent : ChainHeader) (h : BlockHeader)
      → (attach t parent h).total_work ≡ t.total_work
  unfolding attach store notify
  attach-total_work t parent h = refl

  heaviest :
      (fuel : ℕ) (t : BlockTree) (parent : ChainHeader) (h : BlockHeader) (t' : BlockTree)
      (added : Bool)
      → (if ltb t.total_work (parent.chain_work + get_work h)
          then accept fuel t parent h
          else ok (attach t parent h, true))
        ≡ ok (t', added)
      → (added ≡ true) × (t'.total_work ≡ max t.total_work (parent.chain_work + get_work h))
  unfolding accept
  heaviest fuel t parent h t' added e =
      elim (if_cases (ltb t.total_work (parent.chain_work + get_work h)) e) [
        | inl (more, e1) ↦
            let ((chosen, done), best, e2) =
              >>=-eq-ok (set_best_chain fuel (get_hash h) (child_of parent h) (attach t parent h)) _
                e1 in
            let work =
              set_best_chain-total_work fuel (get_hash h) (child_of parent h) (attach t parent h)
                chosen done refl best in
            (cc, ground (arith, more, work, e2))
        | inr (less, e1) ↦ (cc, ground (arith, less, e1, attach-total_work t parent h))
      ]

  -- When insertHeader returns, either the hash of the header was known, it returns false and the
  -- tree is as it was; or the hash was unknown, it returns true, the parent of the header was in
  -- the tree, and the total work of the tree is now the greater of the old total work and the work
  -- of the chain that ends in the new header, which is the work of the chain up to the parent and
  -- the work of the header.
  pub insert_header_lem :
      (fuel : ℕ) (t : BlockTree) (h : BlockHeader) (check : Bool) (t' : BlockTree) (added : Bool)
      → insert_header fuel t h check ≡ ok (t', added)
      → Inserted t h t' added
  unfolding insert_header
  insert_header_lem fuel t h check t' added e =
      let (_, _, e1) = >>=-eq-ok (throw_if (length t.headers == 0) no_genesis) _ e in
      elim (if_cases (has_header t (get_hash h)) e1) [
        | inl (known, same) ↦ inl (known, cc, cc)
        | inr (new, e2) ↦
            let (parent, found, e3) =
              >>=-eq-ok (or_throw no_parent (find h.prev_block_hash t.headers)) _ e2 in
            let (_, _, e4) =
              >>=-eq-ok
                (throw_if (check && t.check_proof_of_work && ltb (get_target h) (pow_number h))
                  hash_too_big)
                _ e3 in
            let (sure, work) = heaviest fuel t parent h t' added e4 in
            inr (new, sure, parent, or_throw-ok no_parent _ found, work)
      ]
