-- ===== src/Merkle/Partial.antt =====
-- class PartialMerkleTree: a Merkle tree cut down to the branches of the matched leaves.
use coin_vault.Common.{
  Bytes, length, u32, ◌+◌, at, ℕ, zero, suc, ◌-◌, ◌*◌, ◌/◌, ◌^◌, min, Bool, true, false, List, [],
  ◌∷◌, ◌++◌, ltb, if◌then◌else◌, Result, ◌>>=◌, ◌>>◌, invalid_tree, empty_leaves, ok, err, fault,
}
pub mod Compressed
pub mod Flags
pub mod Levels
pub mod Nodes
pub mod Roots
pub mod RoundTrip

abbrev pub Leaf : Type 0
Leaf = Bytes × Bool

-- The members of an object that the recursions fill in.
pub record Part : Type 0 where
  pub depth : ℕ
  pub merkle_hashes : List Bytes
  pub tx_hashes : List Bytes
  pub bits : List Bool
  pub root : Bytes

pub record PartialTree : Type 0 where
  pub n_txs : ℕ
  pub part : Part
  pub open part use *

-- `depth = 1; while (n > 0) { depth++; n >>= 1; } depth--;` counts the binary digits of `n`, which
-- has at most 32, the fuel.
unfoldable pub digits_loop : ℕ → ℕ → ℕ
digits_loop zero n = 0
digits_loop (suc fuel) n = let more = digits_loop fuel (n / 2) in if ltb 0 n then suc more else 0

-- `nTxs_ - 1` is in `unsigned int`.
unfoldable pub tree_depth : ℕ → ℕ
unfolding digits_loop
tree_depth n_txs = digits_loop 32 (u32 (n_txs + (2 ^ 32 - 1)))

module _ {ℓ} {A : Type ℓ} where
  -- The first `k` elements, and the others.
  unfoldable pub front : ℕ → List A → List A
  front zero xs = []
  front (suc k) [] = []
  front (suc k) (x ∷ xs) = x ∷ front k xs

  unfoldable pub back : ℕ → List A → List A
  back zero xs = xs
  back (suc k) [] = []
  back (suc k) (x ∷ xs) = back k xs

unfoldable pub leaf_part : Bytes → Bool → Part
leaf_part hash matched = record {
  depth = 0;
  merkle_hashes = hash ∷ [];
  tx_hashes = if matched then hash ∷ [] else [];
  bits = matched ∷ [];
  root = hash;
}

-- What `setUncompressed` does to a node whose two branches are joined: without a match in it, only
-- its root is kept.
abbrev pub no_matches : List Bytes → Bool
no_matches [] = true
no_matches (h ∷ hs) = false

unfoldable pub close_node : ℕ → List Bytes → List Bytes → List Bool → Bytes → Part
close_node depth hashes txs bits root =
    if no_matches txs
    then record {
      depth = depth;
      merkle_hashes = root ∷ [];
      tx_hashes = txs;
      bits = false ∷ [];
      root = root;
    }
    else record {
      depth = depth;
      merkle_hashes = hashes;
      tx_hashes = txs;
      bits = true ∷ bits;
      root = root;
    }

module _ (sha256_2 : Bytes → Bytes) where
  unfoldable pub join_two : ℕ → Part → Part → Part
  unfolding close_node
  join_two depth l r =
      close_node depth (l.merkle_hashes ++ r.merkle_hashes) (l.tx_hashes ++ r.tx_hashes)
        (l.bits ++ r.bits) (sha256_2 (l.root ++ r.root))

  unfoldable pub join_one : ℕ → Part → Part
  unfolding close_node
  join_one depth l =
      close_node depth l.merkle_hashes l.tx_hashes l.bits (sha256_2 (l.root ++ l.root))

  -- The recursive `setUncompressed`; the list holds the leaves from `begin` up to `end`.
  unfoldable pub build : ℕ → List Leaf → Result Part
  unfolding leaf_part join_two join_one front back
  build zero [] = fault
  build zero ((hash, matched) ∷ leaves) = ok (leaf_part hash matched)
  build (suc d) leaves = do
    let k = min (2 ^ d) (length leaves)
    l ← build d (front k leaves)
    if ltb k (length leaves)
        then (build d (back k leaves) >>= λ r. ok (join_two (suc d) l r))
        else ok (join_one (suc d) l)

  unfoldable pub set_uncompressed : List Leaf → Result PartialTree
  unfolding build tree_depth
  set_uncompressed [] = err empty_leaves
  set_uncompressed (leaf ∷ leaves) = do
    let n_txs = u32 (length (leaf ∷ leaves))
    part ← build (tree_depth n_txs) (leaf ∷ leaves)
    ok (record { n_txs = n_txs; part = part })

  abbrev pub bare : ℕ → List Bytes → Bytes → Part
  bare depth txs root = record {
    depth = depth;
    merkle_hashes = [];
    tx_hashes = txs;
    bits = [];
    root = root;
  }

  -- The recursive `setCompressed`, which takes hashes and bits from two queues.
  unfoldable pub rebuild : ℕ → List Bytes → List Bool → Result (Part × List Bytes × List Bool)
  rebuild depth [] bits = err invalid_tree
  rebuild depth (h ∷ hs) [] = err invalid_tree
  rebuild zero (h ∷ hs) (bit ∷ bits) = ok (bare 0 (if bit then h ∷ [] else []) h, hs, bits)
  rebuild (suc d) (h ∷ hs) (false ∷ bits) = ok (bare (suc d) [] h, hs, bits)
  rebuild (suc d) (h ∷ hs) (true ∷ bits) = rebuild d (h ∷ hs) bits >>= λ (l, hashes, left_bits).
      if no_matches hashes
      then ok (bare (suc d) l.tx_hashes (sha256_2 (l.root ++ l.root)), hashes, left_bits)
      else (rebuild d hashes left_bits >>= λ (r, rest, right_bits). ok (
        bare (suc d) (l.tx_hashes ++ r.tx_hashes) (sha256_2 (l.root ++ r.root)),
        rest,
        right_bits,
      ))
