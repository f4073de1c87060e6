-- ===== src/Tests/MerkleTests.antt =====
-- Trees over three hashes of one byte, with a toy hash.
use coin_vault.Common.{Bytes, ◌≡◌, refl, true, false, some, List, [], ◌∷◌, ◌++◌, reverse, arith, ok}
use coin_vault.Merkle.Partial.{PartialTree, set_uncompressed}
use coin_vault.Merkle.Partial.Roots.{hashes_of, matched_of}
use coin_vault.Merkle.Partial.Flags.{get_flags}
use coin_vault.Merkle.Partial.Compressed.{set_compressed, set_compressed-set_uncompressed}
use coin_vault.Merkle.Tree.{get_root}
use coin_vault.Merkle.Partial.{Leaf, Part, build, rebuild, bare}
use coin_vault.Merkle.Partial.RoundTrip.{rebuild-build}

abbrev toy_hash : Bytes → Bytes
toy_hash xs = xs

abbrev leaves : List Leaf
leaves = (1 ∷ [], false) ∷ (2 ∷ [], true) ∷ (3 ∷ [], false) ∷ []

abbrev part : Part
part = record {
  depth = 2;
  merkle_hashes = (1 ∷ []) ∷ (2 ∷ []) ∷ (3 ∷ 3 ∷ []) ∷ [];
  tx_hashes = (2 ∷ []) ∷ [];
  bits = true ∷ true ∷ false ∷ true ∷ false ∷ [];
  root = 1 ∷ 2 ∷ 3 ∷ 3 ∷ [];
}

built : build toy_hash 2 leaves ≡ ok part
unfolding build
built = refl

rebuild-build_example :
    rebuild toy_hash 2 part.merkle_hashes (part.bits ++ (false ∷ false ∷ false ∷ []))
    ≡ ok (bare toy_hash 2 ((2 ∷ []) ∷ []) (1 ∷ 2 ∷ 3 ∷ 3 ∷ []), [], false ∷ false ∷ false ∷ [])
rebuild-build_example =
    rebuild-build toy_hash 2 leaves part (false ∷ false ∷ false ∷ []) (omega arith) (omega arith)
      built

set_compressed-set_uncompressed_example :
    (tree again : PartialTree) × (set_uncompressed toy_hash leaves ≡ ok tree)
    × (set_compressed toy_hash tree.n_txs tree.merkle_hashes
          (get_flags tree.bits)
          (reverse tree.root)
        ≡ ok again)
    × (get_root toy_hash (hashes_of leaves) ≡ some again.root)
    × (again.tx_hashes ≡ matched_of leaves)
set_compressed-set_uncompressed_example =
    set_compressed-set_uncompressed toy_hash leaves (omega arith) (omega arith)
