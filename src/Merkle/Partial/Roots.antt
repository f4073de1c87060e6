-- ===== src/Merkle/Partial/Roots.antt =====
-- The root that setUncompressed computes is the one of MerkleTree::getRoot, and its matches are the
-- matched leaves.
use native.Mathlib.Nat.{pow-suc}
use coin_vault.Common.{
  Bytes, length, le_cases, ℕ, zero, suc, ◌^◌, ◌≤◌, ◌<◌, ◌≡◌, refl, sym, ap, ◌∙◌, inl, inr, Bool,
  List, [], ◌∷◌, ◌++◌, append_assoc, append-nil, arith, ltb, if◌then◌else◌, ltb-true, ltb-false, ok,
}
use coin_vault.Merkle.Partial.{
  Leaf, Part, front, back, leaf_part, close_node, join_two, join_one, build,
}
use coin_vault.Merkle.Partial.Nodes.{pow-pos, length-front, length-back}
use coin_vault.Merkle.Partial.RoundTrip.{build_one, build_two, build_total}

abbrev pub hashes_of : List Leaf → List Bytes
hashes_of [] = []
hashes_of ((hash, matched) ∷ leaves) = hash ∷ hashes_of leaves

abbrev pub matched_of : List Leaf → List Bytes
matched_of [] = []
matched_of ((hash, matched) ∷ leaves) = (if matched then hash ∷ [] else []) ++ matched_of leaves

pub length-hashes_of : (leaves : List Leaf) → length (hashes_of leaves) ≡ length leaves
length-hashes_of [] = refl
length-hashes_of ((hash, matched) ∷ leaves) = omega (arith, length-hashes_of leaves)

hashes_of-front :
    (k : ℕ) (leaves : List Leaf) → hashes_of (front k leaves) ≡ front k (hashes_of leaves)
unfolding front
hashes_of-front zero leaves = refl
hashes_of-front (suc k) [] = refl
hashes_of-front (suc k) ((hash, matched) ∷ leaves) = ap (λ hs. hash ∷ hs) (hashes_of-front k leaves)

hashes_of-back :
    (k : ℕ) (leaves : List Leaf) → hashes_of (back k leaves) ≡ back k (hashes_of leaves)
unfolding back
hashes_of-back zero leaves = refl
hashes_of-back (suc k) [] = refl
hashes_of-back (suc k) ((hash, matched) ∷ leaves) = hashes_of-back k leaves

matched_of-front-back :
    (k : ℕ) (leaves : List Leaf)
    → matched_of (front k leaves) ++ matched_of (back k leaves) ≡ matched_of leaves
unfolding front back
matched_of-front-back zero leaves = refl
matched_of-front-back (suc k) [] = refl
matched_of-front-back (suc k) ((hash, matched) ∷ leaves) =
    append_assoc (if matched then hash ∷ [] else []) (matched_of (front k leaves))
      (matched_of (back k leaves))
    ∙ ap (λ hs. (if matched then hash ∷ [] else []) ++ hs) (matched_of-front-back k leaves)

module _ (sha256_2 : Bytes → Bytes) where
  -- The root of a tree of depth `d` over at most 2^d hashes.
  unfoldable pub tree_root : ℕ → List Bytes → Bytes
  tree_root zero [] = []
  tree_root zero (h ∷ hs) = h
  tree_root (suc d) hs =
      let l = tree_root d (front (2 ^ d) hs) in
      let r = tree_root d (back (2 ^ d) hs) in
      let all = tree_root d hs in
      if ltb (2 ^ d) (length hs) then sha256_2 (l ++ r) else sha256_2 (all ++ all)

  close_node-parts :
      (d : ℕ) (hashes txs : List Bytes) (bits : List Bool) (root : Bytes)
      → ((close_node d hashes txs bits root).tx_hashes ≡ txs)
        × ((close_node d hashes txs bits root).root ≡ root)
  unfolding close_node
  close_node-parts d hashes [] bits root = (refl, refl)
  close_node-parts d hashes (t ∷ txs) bits root = (refl, refl)

  abbrev pub Parts : ℕ → List Leaf → Part → Type 0
  Parts d leaves p = (p.tx_hashes ≡ matched_of leaves) × (p.root ≡ tree_root d (hashes_of leaves))

  pub tree_root-small :
      (d : ℕ) (hs : List Bytes)
      → length hs ≤ 2 ^ d
      → tree_root (suc d) hs ≡ sha256_2 (tree_root d hs ++ tree_root d hs)
  unfolding tree_root
  tree_root-small d hs small = rw (ltb-false (2 ^ d) (length hs) small) refl

  pub tree_root-large :
      (d : ℕ) (hs : List Bytes)
      → 2 ^ d < length hs
      → tree_root (suc d) hs
        ≡ sha256_2 (tree_root d (front (2 ^ d) hs) ++ tree_root d (back (2 ^ d) hs))
  unfolding tree_root
  tree_root-large d hs large = rw (ltb-true (2 ^ d) (length hs) large) refl

  joined :
      (d : ℕ) (leaves : List Leaf) (l : Part)
      → length leaves ≤ 2 ^ d
      → Parts d leaves l
      → Parts (suc d) leaves (join_one sha256_2 (suc d) l)
  unfolding join_one
  joined d leaves l small (txs, root) =
      let (t, r) =
        close_node-parts (suc d) l.merkle_hashes l.tx_hashes l.bits (sha256_2 (l.root ++ l.root)) in
      let fits = length-hashes_of leaves in
      (t ∙ txs, rw (tree_root-small d (hashes_of leaves) (omega arith), ← root) r)

  joined_two :
      (d : ℕ) (leaves : List Leaf) (l r : Part)
      → 2 ^ d < length leaves
      → Parts d (front (2 ^ d) leaves) l
      → Parts d (back (2 ^ d) leaves) r
      → Parts (suc d) leaves (join_two sha256_2 (suc d) l r)
  unfolding join_two
  joined_two d leaves l r large (left_txs, left_root) (right_txs, right_root) =
      let (t, root) =
        close_node-parts (suc d) (l.merkle_hashes ++ r.merkle_hashes) (l.tx_hashes ++ r.tx_hashes)
          (l.bits ++ r.bits) (sha256_2 (l.root ++ r.root)) in
      let fits = length-hashes_of leaves in
      (
        t ∙ rw (left_txs, right_txs) (matched_of-front-back (2 ^ d) leaves),
        root
            ∙ rw
                (
                  tree_root-large d (hashes_of leaves) (omega arith),
                  ← hashes_of-front (2 ^ d) leaves,
                  ← hashes_of-back (2 ^ d) leaves,
                  left_root,
                  right_root,
                )
                refl,
      )

  -- What the recursion of setUncompressed computes.
  pub build-parts :
      (d : ℕ) (leaves : List Leaf) (p : Part)
      → 0 < length leaves
      → length leaves ≤ 2 ^ d
      → build sha256_2 d leaves ≡ ok p
      → Parts d leaves p
  build-parts zero [] p some_leaf fits e = absurd (omega arith)
  build-parts zero ((hash, matched) ∷ []) p some_leaf fits e =
      let same : leaf_part hash matched ≡ p = unfold build in cc in
      rw (← same)
        (unfold leaf_part tree_root in (sym (append-nil (if matched then hash ∷ [] else [])), refl))
  build-parts zero (x ∷ y ∷ leaves) p some_leaf fits e = absurd (omega arith)
  build-parts (suc d) leaves p some_leaf fits e = elim (le_cases (length leaves) (2 ^ d)) [
    | inl small ↦
        let (l, left) = build_total sha256_2 d leaves some_leaf small in
        let parts = build-parts d leaves l some_leaf small left in
        let step : build sha256_2 (suc d) leaves ≡ ok (join_one sha256_2 (suc d) l) =
          rw (build_one sha256_2 d leaves small, left) refl in
        let same : join_one sha256_2 (suc d) l ≡ p = cc in
        rw (← same) (joined d leaves l small parts)
    | inr large ↦
        let full = length-front (2 ^ d) leaves (omega arith) in
        let sum = length-back (2 ^ d) leaves (omega arith) in
        let (l, left) =
          build_total sha256_2 d (front (2 ^ d) leaves) (omega (arith, pow-pos d)) (omega arith) in
        let (r, right) =
          build_total sha256_2 d (back (2 ^ d) leaves) (omega arith) (omega (arith, pow-suc 2 d)) in
        let lefts =
          build-parts d (front (2 ^ d) leaves) l (omega (arith, pow-pos d)) (omega arith) left in
        let rights =
          build-parts d (back (2 ^ d) leaves) r (omega arith) (omega (arith, pow-suc 2 d)) right in
        let step : build sha256_2 (suc d) leaves ≡ ok (join_two sha256_2 (suc d) l r) =
          rw (build_two sha256_2 d leaves large, left, right) refl in
        let same : join_two sha256_2 (suc d) l r ≡ p = cc in
        rw (← same) (joined_two d leaves l r large lefts rights)
  ]
