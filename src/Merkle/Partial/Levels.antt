-- ===== src/Merkle/Partial/Levels.antt =====
-- The levels of MerkleTree::getRoot and the branches of PartialMerkleTree lead to one root.
use native.Mathlib.Nat.{pow-suc}
use coin_vault.Common.{
  Bytes, length, le_cases, u32, ℕ, zero, suc, ◌+◌, ◌-◌, ◌*◌, ◌/◌, ◌^◌, ◌≤◌, ◌<◌, ◌≡◌, refl, ap, inl,
  inr, some, List, [], ◌∷◌, ◌++◌, arith, ltb, Bool-cases, ltb-true,
}
use coin_vault.Merkle.Tree.{pair_up, length-pair_up, root_loop, get_root}
use coin_vault.Merkle.Partial.{front, back, tree_depth, digits_loop}
use coin_vault.Merkle.Partial.Nodes.{pow-pos, length-front, length-back}
use coin_vault.Merkle.Partial.Roots.{tree_root, tree_root-small, tree_root-large}

front-nil : (k : ℕ) → front {A = Bytes} k [] ≡ []
unfolding front
front-nil zero = refl
front-nil (suc k) = refl

back-nil : (k : ℕ) → back {A = Bytes} k [] ≡ []
unfolding back
back-nil zero = refl
back-nil (suc k) = refl

twice : (k : ℕ) → 2 * suc k ≡ suc (suc (2 * k))
twice k = omega arith

module _ (sha256_2 : Bytes → Bytes) where
  pair_up-front :
      (k : ℕ) (hs : List Bytes)
      → pair_up sha256_2 (front (2 * k) hs) ≡ front k (pair_up sha256_2 hs)
  unfolding front pair_up
  pair_up-front zero hs = refl
  pair_up-front (suc k) [] = rw (twice k) refl
  pair_up-front (suc k) (a ∷ []) = rw (twice k, front-nil k) refl
  pair_up-front (suc k) (a ∷ b ∷ hs) =
      rw (twice k) (ap (λ t. sha256_2 (a ++ b) ∷ t) (pair_up-front k hs))

  pair_up-back :
      (k : ℕ) (hs : List Bytes) → pair_up sha256_2 (back (2 * k) hs) ≡ back k (pair_up sha256_2 hs)
  unfolding back pair_up
  pair_up-back zero hs = refl
  pair_up-back (suc k) [] = rw (twice k) refl
  pair_up-back (suc k) (a ∷ []) = rw (twice k, back-nil k) refl
  pair_up-back (suc k) (a ∷ b ∷ hs) = rw (twice k) (pair_up-back k hs)

  -- A level of the tree less.
  tree_root-pair_up :
      (d : ℕ) (hs : List Bytes)
      → 0 < length hs
      → length hs ≤ 2 ^ suc d
      → tree_root sha256_2 (suc d) hs ≡ tree_root sha256_2 d (pair_up sha256_2 hs)
  tree_root-pair_up zero [] some_hash fits = absurd (omega arith)
  tree_root-pair_up zero (a ∷ []) some_hash fits = unfold tree_root pair_up in refl
  tree_root-pair_up zero (a ∷ b ∷ []) some_hash fits = unfold tree_root pair_up front back in refl
  tree_root-pair_up zero (a ∷ b ∷ c ∷ hs) some_hash fits = absurd (omega arith)
  tree_root-pair_up (suc d) hs some_hash fits =
      let double : 2 ^ suc d ≡ 2 * 2 ^ d = omega (arith, pow-suc 2 d) in
      let pairs = length-pair_up sha256_2 hs in
      elim (le_cases (length hs) (2 ^ suc d)) [
        | inl small ↦
            rw
              (
                tree_root-small sha256_2 (suc d) hs small,
                tree_root-pair_up d hs some_hash small,
                tree_root-small sha256_2 d (pair_up sha256_2 hs) (omega arith),
              )
              refl
        | inr large ↦
            let full = length-front (2 ^ suc d) hs (omega arith) in
            let sum = length-back (2 ^ suc d) hs (omega arith) in
            rw
              (
                tree_root-large sha256_2 (suc d) hs large,
                tree_root-pair_up d (front (2 ^ suc d) hs) (omega (arith, pow-pos d)) (omega arith),
                tree_root-pair_up d (back (2 ^ suc d) hs) (omega arith)
                    (omega (arith, pow-suc 2 (suc d))),
                tree_root-large sha256_2 d (pair_up sha256_2 hs) (omega arith),
                double,
                pair_up-front (2 ^ d) hs,
                pair_up-back (2 ^ d) hs,
              )
              refl
      ]

  root_loop-suc :
      (fuel : ℕ) (a b : Bytes) (hs : List Bytes)
      → root_loop sha256_2 (suc fuel) (a ∷ b ∷ hs)
        ≡ root_loop sha256_2 fuel (pair_up sha256_2 (a ∷ b ∷ hs))
  unfolding root_loop
  root_loop-suc fuel a b hs = refl

  root_loop-tree_root :
      (d fuel : ℕ) (hs : List Bytes)
      → length hs ≤ fuel
      → length hs ≤ 2 ^ d
      → 2 ^ d < 2 * length hs
      → root_loop sha256_2 fuel hs ≡ some (tree_root sha256_2 d hs)
  root_loop-tree_root d fuel [] fuel_left fits deep = absurd (omega arith)
  root_loop-tree_root zero fuel (a ∷ []) fuel_left fits deep = unfold root_loop tree_root in refl
  root_loop-tree_root (suc d) fuel (a ∷ []) fuel_left fits deep =
      absurd (omega (arith, pow-suc 2 d, pow-pos d))
  root_loop-tree_root zero fuel (a ∷ b ∷ hs) fuel_left fits deep = absurd (omega arith)
  root_loop-tree_root (suc d) zero (a ∷ b ∷ hs) fuel_left fits deep = absurd (omega arith)
  root_loop-tree_root (suc d) (suc fuel) (a ∷ b ∷ hs) fuel_left fits deep =
      let pairs = length-pair_up sha256_2 (a ∷ b ∷ hs) in
      let next =
        root_loop-tree_root d fuel (pair_up sha256_2 (a ∷ b ∷ hs)) (omega arith)
          (omega (arith, pow-suc 2 d)) (omega (arith, pow-suc 2 d)) in
      rw (root_loop-suc fuel a b hs, next, tree_root-pair_up d (a ∷ b ∷ hs) (omega arith) fits) refl

  -- At a depth that is not greater than it must be, both roots are the same.
  pub get_root-tree_root :
      (d : ℕ) (hs : List Bytes)
      → length hs ≤ 2 ^ d
      → 2 ^ d < 2 * length hs
      → get_root sha256_2 hs ≡ some (tree_root sha256_2 d hs)
  unfolding get_root
  get_root-tree_root d hs fits deep = root_loop-tree_root d (length hs) hs (omega arith) fits deep

digits_loop-zero : (fuel : ℕ) → digits_loop fuel 0 ≡ 0
unfolding digits_loop
digits_loop-zero zero = refl
digits_loop-zero (suc fuel) = refl

digits_loop-least : (fuel n : ℕ) → 0 < n → 2 ^ digits_loop fuel n ≤ 2 * n
unfolding digits_loop
digits_loop-least zero n some_left = omega arith
digits_loop-least (suc fuel) n some_left = elim (Bool-cases (ltb 0 (n / 2))) [
  | inl more ↦
      let ih = digits_loop-least fuel (n / 2) (ground arith) in
      rw (ltb-true 0 n some_left) (omega (arith, pow-suc 2 (digits_loop fuel (n / 2))))
  | inr last ↦
      let half : n / 2 ≡ 0 = ground arith in
      rw (ltb-true 0 n some_left, half, digits_loop-zero fuel) (omega arith)
]

pub tree_depth-least : (n : ℕ) → 0 < n → n < 2 ^ 32 → 2 ^ tree_depth n < 2 * n
unfolding tree_depth
tree_depth-least n some_leaf small =
    let wrapped : u32 (n + (2 ^ 32 - 1)) ≡ n - 1 = omega arith in
    rw wrapped (elim (Bool-cases (ltb 0 (n - 1))) [
      | inl more ↦ let ih = digits_loop-least 32 (n - 1) (ground arith) in omega arith
      | inr one ↦ let none_left : n - 1 ≡ 0 = ground arith in rw none_left (omega arith)
    ])
