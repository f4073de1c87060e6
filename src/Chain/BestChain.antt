-- ===== src/Chain/BestChain.antt =====
-- CoinQBlockTreeMem::setBestChain and unsetBestChain. A `ChainHeader&` is a key and the value that
-- the header has when the call begins.
use coin_vault.Common.{
  Bytes, ℕ, zero, suc, ◌≡◌, refl, sym, ◌∙◌, inl, inr, Bool, true, false, not, Option, none, some,
  List, [], ◌∷◌, ◌++◌, arith, ◌==◌, if◌then◌else◌, if_cases, Result, ◌>>=◌, ◌>>◌, throw_if,
  >>=-eq-ok, remove_genesis, stuck, ok,
}
use coin_vault.Chain.Headers.{
  ChainHeader, BlockTree, reorg, add_best_chain, remove_best_chain, header_at, notify, store,
  erase_height,
}

-- The first child that is in the best chain.
unfoldable pub best_child : BlockTree → List Bytes → Result (Option (Bytes × ChainHeader))
unfolding header_at
best_child t [] = ok none
best_child t (hash ∷ hashes) = do
  child ← header_at t hash
  if child.in_best_chain then ok (some (hash, child)) else best_child t hashes

-- `inBestChain = false; notifyRemoveBestChain(…)`
unfoldable pub remove_from_best : Bytes → ChainHeader → BlockTree → BlockTree
unfolding notify store
remove_from_best key h t =
    let out = record h { in_best_chain = false } in
    notify (remove_best_chain h.header) (store key out t)

-- `while (pParent->childHashes.size() != 0)`; a turn that finds no child repeats itself.
unfoldable pub unset_loop : ℕ → List Bytes → BlockTree → Result BlockTree
unfolding best_child remove_from_best erase_height
unset_loop fuel [] t = ok t
unset_loop zero (c ∷ cs) t = stuck
unset_loop (suc fuel) (c ∷ cs) t = best_child t (c ∷ cs) >>= λ found. elim found [
  | none ↦ unset_loop fuel (c ∷ cs) t
  | some (key, child) ↦
      let erased = record t { heights = erase_height child.height t.heights } in
      unset_loop fuel child.child_hashes (remove_from_best key child erased)
]

unfoldable pub step_back : ChainHeader → BlockTree → BlockTree
step_back parent t =
    if parent.in_best_chain
    then record t { best_height = some parent.height; total_work = parent.chain_work }
    else t

unfoldable pub unset_best_chain : ℕ → Bytes → ChainHeader → BlockTree → Result (BlockTree × Bool)
unfolding header_at step_back remove_from_best unset_loop
unset_best_chain fuel key h t = if not h.in_best_chain then ok (t, false) else (do
  throw_if (h.height == 0) remove_genesis
  parent ← header_at t h.prev_block_hash
  left ← unset_loop fuel h.child_hashes (remove_from_best key h (step_back parent t))
  ok (left, true))

-- The walk back to the best chain: the headers on the way, in the order in which they leave the
-- stack, and the children of the header where it ends.
unfoldable pub retrace : ℕ → Bytes → ChainHeader → BlockTree → Result (List Bytes × List Bytes)
unfolding header_at
retrace zero key h t = stuck
retrace (suc fuel) key h t = if h.in_best_chain then ok ([], h.child_hashes) else (do
  parent ← header_at t h.prev_block_hash
  (later, children) ← retrace fuel h.prev_block_hash parent t
  ok (later ++ (key ∷ []), children))

-- The loop that pops the stack.
unfoldable pub mark_loop : Bool → List Bytes → BlockTree → Result BlockTree
unfolding header_at notify store erase_height
mark_loop first [] t = ok t
mark_loop first (key ∷ keys) t = do
  h ← header_at t key
  let best = record h { in_best_chain = true }
  let stored = store key best t
  let placed = record stored { heights = (h.height, key) ∷ erase_height h.height t.heights }
  let told = if first then notify (reorg h.header) placed else placed
  mark_loop false keys (notify (add_best_chain h.header) told)

-- The best chain is cut where the new one leaves it.
unfoldable pub cut_best_chain : ℕ → List Bytes → BlockTree → Result BlockTree
unfolding best_child unset_best_chain
cut_best_chain fuel children t = best_child t children >>= λ found. elim found [
  | none ↦ ok t
  | some (key, child) ↦ unset_best_chain fuel key child t >>= λ (cut, done). ok cut
]

-- What setBestChain does to a header outside the best chain.
unfoldable pub choose_chain : ℕ → Bytes → ChainHeader → BlockTree → Result (BlockTree × Bool)
unfolding retrace cut_best_chain mark_loop
choose_chain fuel key h t = do
  (path, children) ← retrace fuel key h t
  cut ← cut_best_chain fuel children t
  marked ←
      mark_loop true path (record cut { best_height = some h.height; total_work = h.chain_work })
  ok (record marked { head = some key }, true)

unfoldable pub set_best_chain : ℕ → Bytes → ChainHeader → BlockTree → Result (BlockTree × Bool)
unfolding choose_chain
set_best_chain fuel key h t = if h.in_best_chain then ok (t, false) else choose_chain fuel key h t

-- Marking headers leaves the total work alone.
mark_loop-total_work :
    (first : Bool) (keys : List Bytes) (t t' : BlockTree)
    → mark_loop first keys t ≡ ok t'
    → t'.total_work ≡ t.total_work
unfolding mark_loop notify store
mark_loop-total_work first [] t t' e = ground arith
mark_loop-total_work true (key ∷ keys) t t' e =
    let (h, _, e1) = >>=-eq-ok (header_at t key) _ e in mark_loop-total_work false keys _ t' e1
mark_loop-total_work false (key ∷ keys) t t' e =
    let (h, _, e1) = >>=-eq-ok (header_at t key) _ e in mark_loop-total_work false keys _ t' e1

choose_chain-total_work :
    (fuel : ℕ) (key : Bytes) (h : ChainHeader) (t t' : BlockTree) (done : Bool)
    → choose_chain fuel key h t ≡ ok (t', done)
    → t'.total_work ≡ h.chain_work
unfolding choose_chain
choose_chain-total_work fuel key h t t' done e =
    let (walk, _, e1) = >>=-eq-ok (retrace fuel key h t) _ e in
    let (cut, _, e2) = >>=-eq-ok (cut_best_chain fuel walk.1 t) _ e1 in
    let (marked, looped, e3) =
      >>=-eq-ok
        (mark_loop true walk.0
          (record cut { best_height = some h.height; total_work = h.chain_work }))
        _ e2 in
    let kept = mark_loop-total_work true walk.0 _ marked looped in ground (arith, kept, e3)

-- The total work after setBestChain is the chain work of a header outside the best chain.
pub set_best_chain-total_work :
    (fuel : ℕ) (key : Bytes) (h : ChainHeader) (t t' : BlockTree) (done : Bool)
    → h.in_best_chain ≡ false
    → set_best_chain fuel key h t ≡ ok (t', done)
    → t'.total_work ≡ h.chain_work
unfolding set_best_chain
set_best_chain-total_work fuel key h t t' done other e = elim (if_cases h.in_best_chain e) [
  | inl (best, _) ↦ let clash : true ≡ false = sym best ∙ other in absurd (cc clash)
  | inr (_, chosen) ↦ choose_chain-total_work fuel key h t t' done chosen
]

-- When a header has children and none of them is in the best chain, the loop of unsetBestChain
-- that goes up from it runs out of every amount of fuel: in the code, one turn repeats itself for
-- ever.
pub unset_loop-stuck :
    (fuel : ℕ) (hash : Bytes) (hashes : List Bytes) (t : BlockTree)
    → best_child t (hash ∷ hashes) ≡ ok none
    → unset_loop fuel (hash ∷ hashes) t ≡ stuck
unfolding unset_loop
unset_loop-stuck zero hash hashes t e = refl
unset_loop-stuck (suc fuel) hash hashes t e = rw e (unset_loop-stuck fuel hash hashes t e)
