-- ===== src/Vault/Ledger/Links.antt =====
-- How the stored blocks stand on each other, for insertMerkleBlock_unwrapped and
-- deleteMerkleBlock_unwrapped of CoinDB/src/Vault.cpp.
use coin_vault.Common.{
  Bytes, le_cases, u32, bytes_eq-true, bytes_eq, ℕ, ◌+◌, ◌^◌, ◌≤◌, ◌<◌, ◌≡◌, refl, sym, ap, ◌∙◌,
  ◌⊎◌, inl, inr, Bool, true, false, ◌||◌, Option, none, some, List, [], ◌∷◌, arith, ltb, ◌==◌,
  if◌then◌else◌, Bool-cases, ltb-true, ltb-false, if_cases, >>=-eq-ok, ok-injective, ok,
}
use mathlib.Core.Path.{subst}
use coin_vault.Vault.Blocks.{MerkleBlock}
use coin_vault.Vault.Tx.{Tx}
use coin_vault.Vault.Ledger.{
  Ledger, is_some, find_block, delete_rows, delete_merkle_block, confirm, connect,
  max_first_block_timestamp, insert_first, insert_merkle_block,
}

-- A block names the one behind it as its parent and stands one higher.
abbrev pub Links : MerkleBlock → List MerkleBlock → Type 0
Links b [] = Unit {0}
Links b (c ∷ cs) =
    (b.blockheader.prevhash ≡ c.blockheader.hash)
    × (b.blockheader.height ≡ c.blockheader.height + 1)

abbrev pub IsChain : List MerkleBlock → Type 0
IsChain [] = Unit {0}
IsChain (b ∷ bs) = Links b bs × IsChain bs

-- The blocks below a height.
unfoldable pub keep_below : ℕ → List MerkleBlock → List MerkleBlock
keep_below height [] = []
keep_below height (b ∷ bs) =
    let later = keep_below height bs in if ltb b.blockheader.height height then b ∷ later else later

delete_rows-keep_below :
    (height : ℕ) (bs : List MerkleBlock) (txs : List Tx)
    → (delete_rows height bs txs).0 ≡ keep_below height bs
unfolding delete_rows keep_below
delete_rows-keep_below height [] txs = refl
delete_rows-keep_below height (b ∷ bs) txs = elim (Bool-cases (ltb b.blockheader.height height)) [
  | inl e ↦ rw (e, delete_rows-keep_below height bs txs) refl
  | inr e ↦ rw (e, delete_rows-keep_below height bs _) refl
]

-- A whole chain lies below every height above its tip.
keep_below_tip :
    (height : ℕ) (b : MerkleBlock) (bs : List MerkleBlock)
    → IsChain (b ∷ bs)
    → b.blockheader.height < height
    → keep_below height (b ∷ bs) ≡ b ∷ bs
unfolding keep_below
keep_below_tip height b [] chain h = rw (ltb-true b.blockheader.height height h) refl
keep_below_tip height b (c ∷ cs) chain h =
    rw
      (
        ltb-true b.blockheader.height height h,
        keep_below_tip height c cs chain.1 (omega (arith, chain.0.1)),
      )
      refl

some-injective : {b p : MerkleBlock} → some b ≡ some p → b ≡ p
some-injective e = cc

-- What a search finds behind the tip is lower than the tip.
find_block_below :
    (hash : Bytes) (b : MerkleBlock) (bs : List MerkleBlock) {p : MerkleBlock}
    → IsChain (b ∷ bs)
    → find_block hash bs ≡ some p
    → p.blockheader.height < b.blockheader.height
unfolding find_block
find_block_below hash b [] chain found = cc
find_block_below hash b (c ∷ cs) chain found =
    elim (if_cases (bytes_eq c.blockheader.hash hash) found) [
      | inl (_, here) ↦
          let same = some-injective here in
          omega (arith, chain.0.1, ap (λ (m : MerkleBlock). m.blockheader.height) same)
      | inr (_, later) ↦ omega (arith, chain.0.1, find_block_below hash c cs chain.1 later)
    ]

-- A tip that is not below the height is cut off.
skip_tip :
    (height : ℕ) (b : MerkleBlock) (bs : List MerkleBlock)
    → height < b.blockheader.height
    → keep_below (height + 1) (b ∷ bs) ≡ keep_below (height + 1) bs
unfolding keep_below
skip_tip height b bs h = rw (ltb-false b.blockheader.height (height + 1) (omega arith)) refl

-- Cutting a chain above a block that it holds leaves the chain that ends in this block.
pub keep_below-find_block :
    (hash : Bytes) (bs : List MerkleBlock) {p : MerkleBlock}
    → IsChain bs
    → find_block hash bs ≡ some p
    → (rest : List MerkleBlock) × (keep_below (p.blockheader.height + 1) bs ≡ p ∷ rest)
      × IsChain (p ∷ rest)
      × (bytes_eq p.blockheader.hash hash ≡ true)
unfolding find_block
keep_below-find_block hash [] chain found = cc
keep_below-find_block hash (b ∷ bs) {p} chain found =
    elim (if_cases (bytes_eq b.blockheader.hash hash) found) [
      | inl (same, here) ↦
          let e = some-injective here in
          let low : b.blockheader.height < p.blockheader.height + 1 =
            omega (arith, ap (λ (m : MerkleBlock). m.blockheader.height) e) in
          (
            bs,
            keep_below_tip (p.blockheader.height + 1) b bs chain low
                ∙ ap (λ (m : MerkleBlock). m ∷ bs) e,
            subst (λ (m : MerkleBlock). IsChain (m ∷ bs)) e chain,
            rw e at same,
          )
      | inr (_, later) ↦
          let (rest, kept, links, same) = keep_below-find_block hash bs chain.1 later in
          (rest, skip_tip _ b bs (find_block_below hash b bs chain later) ∙ kept, links, same)
    ]

-- Cutting a chain anywhere leaves a chain.
keep_below-IsChain :
    (height : ℕ) (bs : List MerkleBlock) → IsChain bs → IsChain (keep_below height bs)
unfolding keep_below
keep_below-IsChain height [] chain = tt
keep_below-IsChain height (b ∷ bs) chain = elim (le_cases height b.blockheader.height) [
  | inl high ↦
      rw (ltb-false b.blockheader.height height high) (keep_below-IsChain height bs chain.1)
  | inr low ↦ rw (keep_below_tip height b bs chain low) chain
]

pub delete_rows-IsChain :
    (height : ℕ) (bs : List MerkleBlock) (txs : List Tx)
    → IsChain bs
    → IsChain (delete_rows height bs txs).0
delete_rows-IsChain height bs txs chain =
    rw (delete_rows-keep_below height bs txs) (keep_below-IsChain height bs chain)

-- A block of a chain is at most as high as the tip.
find_block_at_most :
    (hash : Bytes) (b : MerkleBlock) (bs : List MerkleBlock) {p : MerkleBlock}
    → IsChain (b ∷ bs)
    → find_block hash (b ∷ bs) ≡ some p
    → p.blockheader.height ≤ b.blockheader.height
unfolding find_block
find_block_at_most hash b bs chain found =
    elim (if_cases (bytes_eq b.blockheader.hash hash) found) [
      | inl (_, here) ↦
          omega (arith, ap (λ (m : MerkleBlock). m.blockheader.height) (some-injective here))
      | inr (_, later) ↦ omega (arith, find_block_below hash b bs chain later)
    ]

-- The tip is below the largest height of 32 bits.
abbrev pub HasRoom : List MerkleBlock → Type 0
HasRoom [] = Unit {0}
HasRoom (b ∷ bs) = b.blockheader.height + 1 < 2 ^ 32

-- What stands above the parent when a block has been connected.
abbrev pub raised : MerkleBlock → ℕ → MerkleBlock
raised block height = record block { blockheader = record block.blockheader { height = height } }

-- The chain above the parent is replaced by the new block.
connect_lem :
    (block p : MerkleBlock) (ledger after : Ledger) (returned : Bool)
    → IsChain ledger.blocks
    → find_block block.blockheader.prevhash ledger.blocks ≡ some p
    → p.blockheader.height + 1 < 2 ^ 32
    → connect block (some p) ledger ≡ ok (after, returned)
    → (rest : List MerkleBlock) × (keep_below (p.blockheader.height + 1) ledger.blocks ≡ p ∷ rest)
      × (after.blocks ≡ raised block (p.blockheader.height + 1) ∷ p ∷ rest)
      × IsChain after.blocks
      × (returned ≡ true)
unfolding connect delete_merkle_block
connect_lem block p ledger after returned chain found room returns =
    let (rest, kept, links, same) =
      keep_below-find_block block.blockheader.prevhash ledger.blocks chain found in
    let height : u32 (p.blockheader.height + 1) ≡ p.blockheader.height + 1 = omega arith in
    let new = raised block (u32 (p.blockheader.height + 1)) in
    let left = (delete_merkle_block (u32 (p.blockheader.height + 1)) ledger).0 in
    let (txs, _, result) =
      >>=-eq-ok (confirm new.blockheader block.hashes left.txs)
        (λ (txs : List Tx). ok (record { blocks = new ∷ left.blocks; txs = txs }, true)) returns in
    let pair : (record { blocks = new ∷ left.blocks; txs = txs }, true) ≡ (after, returned) =
      ok-injective result in
    let cut : (delete_rows (u32 (p.blockheader.height + 1)) ledger.blocks ledger.txs).0 ≡ p ∷ rest =
      rw height (delete_rows-keep_below _ ledger.blocks ledger.txs ∙ kept) in
    let rows : after.blocks ≡ raised block (p.blockheader.height + 1) ∷ p ∷ rest =
      sym (ap (λ (q : Ledger × Bool). q.0.blocks) pair)
      ∙ (ap (λ (bs : List MerkleBlock). raised block (u32 (p.blockheader.height + 1)) ∷ bs) cut
          ∙ ap (λ (h : ℕ). raised block h ∷ p ∷ rest) height) in
    (
      rest,
      kept,
      rows,
      rw rows ((sym (bytes_eq-true _ _ same), refl), links),
      sym (ap (λ (q : Ledger × Bool). q.1) pair),
    )

-- What may have happened when a block has arrived: nothing, or it is the first block, or it stands
-- on its parent, and what stood above the parent is gone.
abbrev pub Arrived : MerkleBlock → List MerkleBlock → List Tx → Ledger → Bool → Type 0
Arrived block blocks txs after returned =
    IsChain after.blocks
    × (((returned ≡ false) × (after ≡ record { blocks = blocks; txs = txs }))
        ⊎ (((returned ≡ true) × (blocks ≡ []) × (after.blocks ≡ block ∷ []))
            ⊎ ((returned ≡ true)
                × (p : MerkleBlock) × (rest : List MerkleBlock) × (find_block
                      block.blockheader.prevhash blocks
                    ≡ some p)
                × (keep_below (p.blockheader.height + 1) blocks ≡ p ∷ rest)
                × (after.blocks ≡ raised block (p.blockheader.height + 1) ∷ p ∷ rest))))

ignored :
    (block : MerkleBlock) (blocks : List MerkleBlock) (txs : List Tx) (after : Ledger)
    (returned : Bool)
    → IsChain blocks
    → ◌≡◌ {A = Ledger × Bool} (record { blocks = blocks; txs = txs }, false) (after, returned)
    → Arrived block blocks txs after returned
ignored block blocks txs after returned chain e =
    let rows : blocks ≡ after.blocks = ap (λ (q : Ledger × Bool). q.0.blocks) e in
    let flag : false ≡ returned = ap (λ (q : Ledger × Bool). q.1) e in
    (rw rows at chain, inl (sym flag, sym (ap (λ (q : Ledger × Bool). q.0) e)))

first-Arrived :
    (newest_first : ℕ) (block : MerkleBlock) (txs : List Tx) (after : Ledger) (returned : Bool)
    → insert_first newest_first block (record { blocks = []; txs = txs }) ≡ (after, returned)
    → Arrived block [] txs after returned
unfolding insert_first
first-Arrived newest_first block txs after returned e =
    elim (if_cases
      (newest_first == 0
        || (ltb newest_first block.blockheader.timestamp || block.blockheader.height == 0))
      e) [
        | inl (_, kept) ↦ ignored block [] txs after returned tt kept
        | inr (_, first) ↦
            let rows : block ∷ [] ≡ after.blocks = ap (λ (q : Ledger × Bool). q.0.blocks) first in
            let flag : true ≡ returned = ap (λ (q : Ledger × Bool). q.1) first in
            (rw (← rows) (tt, tt), inr (inl (sym flag, refl, sym rows)))
      ]

connected :
    (block b : MerkleBlock) (bs : List MerkleBlock) (txs : List Tx) (after : Ledger)
    (returned : Bool) (parent : Option MerkleBlock)
    → IsChain (b ∷ bs)
    → b.blockheader.height + 1 < 2 ^ 32
    → find_block block.blockheader.prevhash (b ∷ bs) ≡ parent
    → connect block parent (record { blocks = b ∷ bs; txs = txs }) ≡ ok (after, returned)
    → Arrived block (b ∷ bs) txs after returned
connected block b bs txs after returned none chain room found returns =
    ignored block (b ∷ bs) txs after returned chain (ok-injective (unfold connect in returns))
connected block b bs txs after returned (some p) chain room found returns =
    let low = find_block_at_most block.blockheader.prevhash b bs chain found in
    let (rest, kept, rows, links, flag) =
      connect_lem block p (record { blocks = b ∷ bs; txs = txs }) after returned chain found
        (omega arith) returns in
    (links, inr (inr (flag, p, rest, found, kept, rows)))

-- When the stored blocks form a chain whose tip is below the largest height of 32 bits, and the
-- insertion of a block returns, then the stored blocks form a chain again, and one of three things
-- has happened: nothing changed and a null pointer is returned; there was no block and the new one
-- is the only one; or its parent was found, the blocks above the parent are gone, and the new one
-- stands on the parent, one higher.
pub insert_merkle_block_lem :
    (times : List ℕ) (block : MerkleBlock) (blocks : List MerkleBlock) (txs : List Tx)
    (after : Ledger) (returned : Bool)
    → IsChain blocks
    → HasRoom blocks
    → insert_merkle_block times block blocks txs ≡ ok (after, returned)
    → Arrived block blocks txs after returned
unfolding insert_merkle_block
insert_merkle_block_lem times block [] txs after returned chain room returns =
    first-Arrived (max_first_block_timestamp times) block txs after returned (ok-injective returns)
insert_merkle_block_lem times block (b ∷ bs) txs after returned chain room returns =
    elim (if_cases (is_some (find_block block.blockheader.hash (b ∷ bs))) returns) [
      | inl (_, known) ↦ ignored block (b ∷ bs) txs after returned chain (ok-injective known)
      | inr (_, new) ↦ connected block b bs txs after returned _ chain room refl new
    ]
