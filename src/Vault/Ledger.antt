-- ===== src/Vault/Ledger.antt =====
-- The blocks of the vault and the transactions that they confirm: insertMerkleBlock_unwrapped,
-- deleteMerkleBlock_unwrapped and updateConfirmations_unwrapped of CoinDB/src/Vault.cpp. The tables are lists, the newest row first.
use coin_vault.Common.{
  Bytes, u32, at, bytes_eq, ℕ, ◌+◌, ◌-◌, ◌*◌, Bool, true, false, not, ◌&&◌, ◌||◌, Option, none,
  some, List, [], ◌∷◌, ltb, ◌==◌, if◌then◌else◌, Result, ◌>>=◌, ◌>>◌, throw_if,
  invalid_merkle_block, ok,
}
use coin_vault.Vault.Blocks.{BlockHeader, MerkleBlock}
use coin_vault.Vault.Tx.{Tx, set_blockheader}
pub mod Links
pub mod Confirmations
pub mod Updates
pub mod Reach

pub record Ledger : Type 0 where
  pub blocks : List MerkleBlock
  pub txs : List Tx

unfoldable pub find_block : Bytes → List MerkleBlock → Option MerkleBlock
unfolding bytes_eq
find_block hash [] = none
find_block hash (b ∷ bs) =
    let later = find_block hash bs in if bytes_eq b.blockheader.hash hash then some b else later

-- `blockheader == blockheader.id()`; the hash of a header is unique in its table.
unfoldable pub is_in_block : BlockHeader → Option BlockHeader → Bool
unfolding bytes_eq
is_in_block header none = false
is_in_block header (some other) = bytes_eq other.hash header.hash

-- `tx.blockheader(nullptr)` for the transactions of a block.
unfoldable pub unconfirm : BlockHeader → List Tx → List Tx
unfolding is_in_block set_blockheader
unconfirm header [] = []
unconfirm header (t ∷ ts) =
    (if is_in_block header t.blockheader then set_blockheader none t else t) ∷ unconfirm header ts

-- The blocks from a height on are deleted; the last value counts them.
unfoldable pub delete_rows : ℕ → List MerkleBlock → List Tx → List MerkleBlock × List Tx × ℕ
unfolding unconfirm
delete_rows height [] txs = ([], txs, 0)
delete_rows height (b ∷ bs) txs =
    let low = ltb b.blockheader.height height in
    let (blocks, left, count) =
      delete_rows height bs (if low then txs else unconfirm b.blockheader txs) in
    if low then (b ∷ blocks, left, count) else (blocks, left, count + 1)

unfoldable pub delete_merkle_block : ℕ → Ledger → Ledger × ℕ
unfolding delete_rows
delete_merkle_block height ledger =
    let (blocks, txs, count) = delete_rows height ledger.blocks ledger.txs in
    (record { blocks = blocks; txs = txs }, count)

-- `hash.in_range(hashes.begin(), hashes.end())`
unfoldable pub holds_hash : List Bytes → Bytes → Bool
unfolding bytes_eq
holds_hash [] hash = false
holds_hash (h ∷ hs) hash = bytes_eq h hash || holds_hash hs hash

abbrev pub has_block : Option BlockHeader → Bool
has_block none = false
has_block (some header) = true

-- The transactions of a new block are confirmed.
unfoldable pub confirm : BlockHeader → List Bytes → List Tx → Result (List Tx)
unfolding holds_hash set_blockheader
confirm header hashes [] = ok []
confirm header hashes (t ∷ ts) = do
  throw_if (holds_hash hashes t.hash && has_block t.blockheader) invalid_merkle_block
  later ← confirm header hashes ts
  ok ((if holds_hash hashes t.hash then set_blockheader (some header) t else t) ∷ later)

-- Behind the search for the parent: the new block gets its height, replaces all from there on, and
-- confirms its transactions.
unfoldable pub connect : MerkleBlock → Option MerkleBlock → Ledger → Result (Ledger × Bool)
unfolding delete_merkle_block confirm
connect block none ledger = ok (ledger, false)
connect block (some parent) ledger = do
  let header = record block.blockheader { height = u32 (parent.blockheader.height + 1) }
  let kept = (delete_merkle_block header.height ledger).0
  txs ← confirm header block.hashes kept.txs
  ok (record { blocks = record block { blockheader = header } ∷ kept.blocks; txs = txs }, true)

-- The earliest of the times at which the accounts were created; with no account it is 0.
unfoldable pub horizon_timestamp : List ℕ → ℕ
horizon_timestamp [] = 0
horizon_timestamp (time ∷ []) = time
horizon_timestamp (time ∷ next ∷ times) =
    let later = horizon_timestamp (next ∷ times) in if ltb time later then time else later

abbrev pub max_horizon_timestamp_offset : ℕ
max_horizon_timestamp_offset = 6 * 60 * 60

unfoldable pub max_first_block_timestamp : List ℕ → ℕ
unfolding horizon_timestamp
max_first_block_timestamp times =
    let first = horizon_timestamp times in
    if ltb max_horizon_timestamp_offset first then first - max_horizon_timestamp_offset else first

-- The first block, for which `newest_first` is the latest time that the accounts allow.
unfoldable pub insert_first : ℕ → MerkleBlock → Ledger → Ledger × Bool
insert_first newest_first block ledger =
    if newest_first == 0
      || (ltb newest_first block.blockheader.timestamp || block.blockheader.height == 0)
    then (ledger, false)
    else (record ledger { blocks = block ∷ [] }, true)

abbrev pub is_some {ℓ} : {A : Type ℓ} → Option A → Bool
is_some none = false
is_some (some x) = true

-- The first argument holds the times at which the accounts were created. The flag tells whether
-- the block is returned rather than a null pointer.
unfoldable pub insert_merkle_block :
    List ℕ → MerkleBlock → List MerkleBlock → List Tx → Result (Ledger × Bool)
unfolding insert_first max_first_block_timestamp find_block connect
insert_merkle_block times block [] txs =
    ok (insert_first (max_first_block_timestamp times) block (record { blocks = []; txs = txs }))
insert_merkle_block times block (b ∷ bs) txs =
    let ledger : Ledger = record { blocks = b ∷ bs; txs = txs } in
    if is_some (find_block block.blockheader.hash (b ∷ bs))
    then ok (ledger, false)
    else connect block (find_block block.blockheader.prevhash (b ∷ bs)) ledger

-- The rows of the view for one transaction, one for each block with its hash; the oldest is first,
-- and the last value counts them.
unfoldable pub confirm_in : List MerkleBlock → Tx → Tx × ℕ
unfolding holds_hash set_blockheader
confirm_in [] tx = (tx, 0)
confirm_in (b ∷ bs) tx =
    let (older, count) = confirm_in bs tx in
    if holds_hash b.hashes tx.hash
    then (set_blockheader (some b.blockheader) older, count + 1)
    else (older, count)

-- `if (tx) query = (query && query_t::Tx::hash == tx->hash());`
unfoldable pub is_asked : Option Bytes → Tx → Bool
unfolding bytes_eq
is_asked none tx = true
is_asked (some hash) tx = bytes_eq tx.hash hash

unfoldable pub update_rows : Option Bytes → List MerkleBlock → List Tx → List Tx × ℕ
unfolding confirm_in is_asked
update_rows only blocks [] = ([], 0)
update_rows only blocks (t ∷ ts) =
    let (rest, count) = update_rows only blocks ts in
    let (found, rows) = confirm_in blocks t in
    if not (has_block t.blockheader) && is_asked only t
    then (found ∷ rest, rows + count)
    else (t ∷ rest, count)

-- With no hash, all transactions that are in no block are looked at.
unfoldable pub update_confirmations : Option Bytes → Ledger → Ledger × ℕ
unfolding update_rows
update_confirmations only ledger =
    let (txs, count) = update_rows only ledger.blocks ledger.txs in
    (record ledger { txs = txs }, count)
