-- ===== src/Merkle/Tree.antt =====
-- class MerkleTree: the root of a list of hashes, level by level.
use coin_vault.Common.{
  Bytes, length, ℕ, zero, suc, ◌+◌, ◌*◌, ◌≤◌, ◌≡◌, refl, Option, none, some, List, [], ◌∷◌, ◌++◌,
  arith,
}

module _ (sha256_2 : Bytes → Bytes) where
  -- The loop of `getRoot`: one level of the tree. A hash that is left over is paired with itself.
  unfoldable pub pair_up : List Bytes → List Bytes
  pair_up [] = []
  pair_up (a ∷ []) = sha256_2 (a ++ a) ∷ []
  pair_up (a ∷ b ∷ hashes) = sha256_2 (a ++ b) ∷ pair_up hashes

  -- `getRoot` calls itself on the next level; `none` means that the fuel ran out.
  unfoldable pub root_loop : ℕ → List Bytes → Option Bytes
  unfolding pair_up
  root_loop fuel [] = some []
  root_loop fuel (h ∷ []) = some h
  root_loop zero (a ∷ b ∷ hashes) = none
  root_loop (suc fuel) (a ∷ b ∷ hashes) = root_loop fuel (pair_up (a ∷ b ∷ hashes))

  -- Each level is shorter than the one below it, so the number of hashes is fuel enough.
  unfoldable pub get_root : List Bytes → Option Bytes
  unfolding root_loop
  get_root hashes = root_loop (length hashes) hashes

  pub length-pair_up :
      (hashes : List Bytes)
      → (2 * length (pair_up hashes) ≤ length hashes + 1)
        × (length hashes ≤ 2 * length (pair_up hashes))
  unfolding pair_up
  length-pair_up [] = (omega arith, omega arith)
  length-pair_up (a ∷ []) = (omega arith, omega arith)
  length-pair_up (a ∷ b ∷ hashes) = let ih = length-pair_up hashes in (omega arith, omega arith)

  root_loop_total :
      (fuel : ℕ) (hashes : List Bytes)
      → length hashes ≤ fuel
      → (root : Bytes) × (root_loop fuel hashes ≡ some root)
  unfolding root_loop
  root_loop_total fuel [] h = ([], refl)
  root_loop_total fuel (a ∷ []) h = (a, refl)
  root_loop_total zero (a ∷ b ∷ hashes) h = absurd (omega arith)
  root_loop_total (suc fuel) (a ∷ b ∷ hashes) h =
      root_loop_total fuel (pair_up (a ∷ b ∷ hashes))
        (omega (arith, length-pair_up (a ∷ b ∷ hashes)))

  -- MerkleTree::getRoot returns a root for every list of hashes: its recursion ends.
  pub get_root_total : (hashes : List Bytes) → (root : Bytes) × (get_root hashes ≡ some root)
  unfolding get_root
  get_root_total hashes = root_loop_total (length hashes) hashes (omega arith)
