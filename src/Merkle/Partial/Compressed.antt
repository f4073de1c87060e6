-- ===== src/Merkle/Partial/Compressed.antt =====
-- PartialMerkleTree::setCompressed with a count, hashes, flags and a root to compare with, and what
-- it makes of the hashes and flags of a tree that setUncompressed has set.
use native.Mathlib.Nat.{pow-suc}
use coin_vault.Common.{
  Bytes, length, u32, bytes_eq_refl, bytes_eq, ℕ, zero, suc, ◌+◌, ◌-◌, ◌/◌, ◌^◌, ◌≤◌, ◌<◌, ◌≡◌,
  refl, sym, ap, ◌∙◌, inl, inr, Bool, true, false, not, some, List, [], ◌∷◌, reverse, arith, ltb,
  ◌==◌, Bool-cases, Result, ◌>>=◌, ◌>>◌, throw_if, zero_count, invalid_root, ok,
}
use coin_vault.Merkle.Partial.{
  Leaf, Part, PartialTree, digits_loop, tree_depth, build, bare, rebuild, set_uncompressed,
}
use coin_vault.Merkle.Partial.Flags.{falses, get_flags, unpack, unpack-get_flags}
use coin_vault.Merkle.Tree.{get_root}
use coin_vault.Merkle.Partial.Roots.{hashes_of, matched_of, length-hashes_of, build-parts}
use coin_vault.Merkle.Partial.Levels.{tree_depth-least, get_root-tree_root}
use coin_vault.Merkle.Partial.RoundTrip.{build_total, rebuild-build}

-- An empty root is not compared.
abbrev matches_root : Bytes → Bytes → Bool
unfolding bytes_eq
matches_root [] root = true
matches_root (b ∷ bs) root = bytes_eq (b ∷ bs) (reverse root)

module _ (sha256_2 : Bytes → Bytes) where
  unfoldable pub set_compressed : ℕ → List Bytes → Bytes → Bytes → Result PartialTree
  unfolding tree_depth unpack rebuild matches_root
  set_compressed n_txs hashes flags merkle_root = do
    throw_if (n_txs == 0) zero_count
    (part, _, _) ← rebuild sha256_2 (tree_depth n_txs) hashes (unpack flags)
    throw_if (not (matches_root merkle_root part.root)) invalid_root
    ok (record {
      n_txs = n_txs;
      part = record part { merkle_hashes = hashes; bits = unpack flags };
    })

  matches_root_refl : (root : Bytes) → matches_root (reverse root) root ≡ true
  unfolding matches_root
  matches_root_refl root = go (reverse root) refl
    where
      go : (r : Bytes) → r ≡ reverse root → matches_root r root ≡ true
      go [] e = refl
      go (b ∷ bs) e = rw (← e) (bytes_eq_refl (b ∷ bs))

-- `2^digits` exceeds the number.
digits_loop-bound : (fuel n : ℕ) → n < 2 ^ fuel → n < 2 ^ digits_loop fuel n
unfolding digits_loop
digits_loop-bound zero n h = h
digits_loop-bound (suc fuel) n h = elim (Bool-cases (ltb 0 n)) [
  | inl some_left ↦
      let ih = digits_loop-bound fuel (n / 2) (omega (arith, pow-suc 2 fuel)) in
      rw some_left (omega (arith, pow-suc 2 (digits_loop fuel (n / 2))))
  | inr none_left ↦ rw none_left (ground arith)
]

pub tree_depth-bound : (n : ℕ) → 0 < n → n < 2 ^ 32 → n ≤ 2 ^ tree_depth n
unfolding tree_depth
tree_depth-bound n some_leaf small =
    let wrapped : u32 (n + (2 ^ 32 - 1)) ≡ n - 1 = omega arith in
    rw wrapped (omega (arith, digits_loop-bound 32 (n - 1) (omega arith)))

set_uncompressed-build :
    (sha256_2 : Bytes → Bytes) (leaves : List Leaf) (part : Part)
    → 0 < length leaves
    → length leaves < 2 ^ 32
    → build sha256_2 (tree_depth (length leaves)) leaves ≡ ok part
    → set_uncompressed sha256_2 leaves ≡ ok (record { n_txs = length leaves; part = part })
unfolding set_uncompressed
set_uncompressed-build sha256_2 [] part some_leaf small e = absurd (omega arith)
set_uncompressed-build sha256_2 (leaf ∷ leaves) part some_leaf small e =
    let wrapped : u32 (length (leaf ∷ leaves)) ≡ length (leaf ∷ leaves) = omega arith in
    rw (wrapped, e) refl

-- For 1 to 2^32 - 1 leaves and any hash function, setUncompressed succeeds; setCompressed, given
-- the count, the hashes, the packed flags and the root of that tree, succeeds too; the root that
-- it holds is the one that MerkleTree::getRoot computes from the hashes of all leaves, and its
-- transaction hashes are exactly those of the matched leaves, in their order.
pub set_compressed-set_uncompressed :
    (sha256_2 : Bytes → Bytes) (leaves : List Leaf)
    → 0 < length leaves
    → length leaves < 2 ^ 32
    → (tree again : PartialTree) × (set_uncompressed sha256_2 leaves ≡ ok tree)
      × (set_compressed sha256_2 tree.n_txs tree.merkle_hashes
            (get_flags tree.bits)
            (reverse tree.root)
          ≡ ok again)
      × (get_root sha256_2 (hashes_of leaves) ≡ some again.root)
      × (again.tx_hashes ≡ matched_of leaves)
set_compressed-set_uncompressed sha256_2 leaves some_leaf small =
    let d = tree_depth (length leaves) in
    let fits = tree_depth-bound (length leaves) some_leaf small in
    let (part, built) = build_total sha256_2 d leaves some_leaf fits in
    let (k, flags) = unpack-get_flags part.bits in
    let back = rebuild-build sha256_2 d leaves part (falses k) some_leaf fits built in
    let (txs, root) = build-parts sha256_2 d leaves part some_leaf fits built in
    let deep = tree_depth-least (length leaves) some_leaf small in
    let hashes = length-hashes_of leaves in
    let top =
      get_root-tree_root sha256_2 d (hashes_of leaves) (omega arith) (omega (arith, deep)) in
    let positive : (length leaves == 0) ≡ false = ground arith in
    (
      record { n_txs = length leaves; part = part },
      record {
        n_txs = length leaves;
        part = record (bare sha256_2 d part.tx_hashes part.root) {
          merkle_hashes = part.merkle_hashes;
          bits = unpack (get_flags part.bits);
        };
      },
      set_uncompressed-build sha256_2 leaves part some_leaf small built,
      unfold set_compressed in
          rw (positive, flags, back, matches_root_refl sha256_2 part.root) refl,
      top ∙ ap some (sym root),
      txs,
    )
