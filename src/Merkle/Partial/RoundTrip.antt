-- ===== src/Merkle/Partial/RoundTrip.antt =====
-- Taking a partial Merkle tree apart gives back its root and its matched leaves.
use native.Mathlib.Nat.{pow-suc}
use coin_vault.Common.{
  Bytes, length, length-append, le_cases, ℕ, zero, suc, ◌+◌, ◌^◌, ◌≤◌, ◌<◌, min, ◌≡◌, refl, inl,
  inr, Bool, List, [], ◌∷◌, ◌++◌, append-nil, arith, ltb-true, ltb-false, ◌>>=◌, ok,
}
use coin_vault.Merkle.Partial.{
  Leaf, Part, front, back, leaf_part, join_two, join_one, build, bare, rebuild,
}
use coin_vault.Merkle.Partial.Nodes.{
  pow-pos, front-length, length-front, length-back, Rebuilds, join_one-Rebuilds, join_two-Rebuilds,
  close_node-hashes,
}

module _ (sha256_2 : Bytes → Bytes) where
  -- Up to 2^d leaves fit into the left branch.
  pub build_one :
      (d : ℕ) (leaves : List Leaf)
      → length leaves ≤ 2 ^ d
      → build sha256_2 (suc d) leaves
        ≡ (build sha256_2 d leaves >>= λ l. ok (join_one sha256_2 (suc d) l))
  unfolding build
  build_one d leaves small =
      let all : min (2 ^ d) (length leaves) ≡ length leaves = omega arith in
      rw (all, front-length leaves, ltb-false (length leaves) (length leaves) (omega arith)) refl

  -- Of more, 2^d go into the left branch and the others into the right one.
  pub build_two :
      (d : ℕ) (leaves : List Leaf)
      → 2 ^ d < length leaves
      → build sha256_2 (suc d) leaves ≡ (
          build sha256_2 d (front (2 ^ d) leaves) >>= λ l.
          build sha256_2 d (back (2 ^ d) leaves) >>= λ r. ok (join_two sha256_2 (suc d) l r))
  unfolding build
  build_two d leaves large =
      let some_part : min (2 ^ d) (length leaves) ≡ 2 ^ d = omega arith in
      rw (some_part, ltb-true (2 ^ d) (length leaves) large) refl

  abbrev Built : ℕ → List Leaf → Type 0
  Built d leaves =
      (p : Part) × (build sha256_2 d leaves ≡ ok p)
      × (0 < length p.merkle_hashes)
      × Rebuilds sha256_2 d (length leaves) p

  one-Built :
      (d : ℕ) (leaves : List Leaf)
      → 0 < length leaves
      → length leaves ≤ 2 ^ d
      → Built d leaves
      → Built (suc d) leaves
  one-Built d leaves some_leaf small (l, e, some_hash, left) = (
    join_one sha256_2 (suc d) l,
    rw (build_one d leaves small, e) refl,
    unfold join_one in
        close_node-hashes sha256_2 (suc d) l.merkle_hashes l.tx_hashes l.bits _ some_hash,
    join_one-Rebuilds sha256_2 d (length leaves) l some_leaf small some_hash left,
  )

  two-Built :
      (d : ℕ) (leaves : List Leaf)
      → 2 ^ d < length leaves
      → Built d (front (2 ^ d) leaves)
      → Built d (back (2 ^ d) leaves)
      → Built (suc d) leaves
  two-Built d leaves large (l, e, some_left, left) (r, f, some_right, right) =
      let full = length-front (2 ^ d) leaves (omega arith) in
      let sum = length-back (2 ^ d) leaves (omega arith) in
      let m : ℕ = length (front (2 ^ d) leaves) in
      let n : ℕ = length (back (2 ^ d) leaves) in
      let total : m + n ≡ length leaves = omega arith in
      (
        join_two sha256_2 (suc d) l r,
        rw (build_two d leaves large, e, f) refl,
        unfold join_two in
            close_node-hashes sha256_2 (suc d) (l.merkle_hashes ++ r.merkle_hashes) _ _ _
              (omega (arith, length-append {0} l.merkle_hashes r.merkle_hashes)),
        rw total at (join_two-Rebuilds sha256_2 d m n l r full some_left some_right left right),
      )

  -- The tree over up to 2^d leaves is built, holds a hash at least, and is rebuilt.
  build-Built :
      (d : ℕ) (leaves : List Leaf) → 0 < length leaves → length leaves ≤ 2 ^ d → Built d leaves
  build-Built zero [] some_leaf fits = absurd (omega arith)
  build-Built zero ((hash, matched) ∷ leaves) some_leaf fits = (
    leaf_part hash matched,
    unfold build in refl,
    unfold leaf_part in omega arith,
    λ hs bs full. unfold leaf_part rebuild in refl,
  )
  build-Built (suc d) leaves some_leaf fits = elim (le_cases (length leaves) (2 ^ d)) [
    | inl small ↦ one-Built d leaves some_leaf small (build-Built d leaves some_leaf small)
    | inr large ↦
        let full = length-front (2 ^ d) leaves (omega arith) in
        let sum = length-back (2 ^ d) leaves (omega arith) in
        two-Built d leaves large
          (build-Built d (front (2 ^ d) leaves) (omega (arith, pow-pos d)) (omega arith))
          (build-Built d (back (2 ^ d) leaves) (omega arith) (omega (arith, pow-suc 2 d)))
  ]

-- For 1 to 2^d leaves the recursion of setUncompressed at depth d returns a part.
pub build_total :
    (sha256_2 : Bytes → Bytes) (d : ℕ) (leaves : List Leaf)
    → 0 < length leaves
    → length leaves ≤ 2 ^ d
    → (p : Part) × (build sha256_2 d leaves ≡ ok p)
build_total sha256_2 d leaves some_leaf fits =
    let (p, e, _, _) = build-Built sha256_2 d leaves some_leaf fits in (p, e)

-- For 1 to 2^d leaves, when the recursion of setUncompressed has built a part of depth d, the
-- recursion of setCompressed, given its hashes and its bits with any padding bits behind them,
-- returns the same root and the matched leaves in their order; it leaves no hash and exactly the
-- padding.
pub rebuild-build :
    (sha256_2 : Bytes → Bytes) (d : ℕ) (leaves : List Leaf) (p : Part) (padding : List Bool)
    → 0 < length leaves
    → length leaves ≤ 2 ^ d
    → build sha256_2 d leaves ≡ ok p
    → rebuild sha256_2 d p.merkle_hashes (p.bits ++ padding)
      ≡ ok (bare sha256_2 d p.tx_hashes p.root, [], padding)
rebuild-build sha256_2 d leaves p padding some_leaf fits h =
    let (q, e, _, again) = build-Built sha256_2 d leaves some_leaf fits in
    let same : q ≡ p = cc in rw same at (rw append-nil at (again [] padding (inr refl)))
