-- ===== src/Merkle/Partial/Nodes.antt =====
-- The nodes of a partial Merkle tree, joined and taken apart.
use native.Mathlib.Nat.{pow-suc}
use coin_vault.Common.{
  Bytes, length, length-append, ℕ, zero, suc, ◌+◌, ◌^◌, ◌≤◌, ◌<◌, ◌≡◌, refl, ap, ◌⊎◌, inl, inr,
  Bool, true, false, List, [], ◌∷◌, ◌++◌, append_assoc, arith, if◌then◌else◌, Bool-cases, ◌>>=◌, ok,
}
use coin_vault.Merkle.Partial.{
  Part, front, back, no_matches, close_node, join_two, join_one, bare, rebuild,
}

no_matches-nil : (txs : List Bytes) → no_matches txs ≡ true → txs ≡ []
no_matches-nil [] e = refl
no_matches-nil (t ∷ ts) e = cc

no_matches-pos : (txs : List Bytes) → 0 < length txs → no_matches txs ≡ false
no_matches-pos [] h = absurd (omega arith)
no_matches-pos (t ∷ ts) h = refl

module _ {ℓ} {A : Type ℓ} where
  pub front-length : (xs : List A) → front (length xs) xs ≡ xs
  unfolding front
  front-length [] = refl
  front-length (x ∷ xs) = ap (λ t. x ∷ t) (front-length xs)

  pub length-front : (k : ℕ) (xs : List A) → k ≤ length xs → length (front k xs) ≡ k
  unfolding front
  length-front zero xs h = refl
  length-front (suc k) [] h = absurd (omega arith)
  length-front (suc k) (x ∷ xs) h = omega (arith, length-front k xs)

  pub length-back : (k : ℕ) (xs : List A) → k ≤ length xs → k + length (back k xs) ≡ length xs
  unfolding back
  length-back zero xs h = omega arith
  length-back (suc k) [] h = absurd (omega arith)
  length-back (suc k) (x ∷ xs) h = omega (arith, length-back k xs)

pub pow-pos : (d : ℕ) → 0 < 2 ^ d
pow-pos zero = omega arith
pow-pos (suc d) = omega (arith, pow-suc 2 d, pow-pos d)

-- A subtree with no right branch is not full.
half_full : (d n : ℕ) (hs : List Bytes) → 0 < n → n ≤ 2 ^ d → (n ≡ 2 ^ suc d) ⊎ (hs ≡ []) → hs ≡ []
half_full d n hs some_leaf small (inl e) = absurd (omega (arith, pow-suc 2 d))
half_full d n hs some_leaf small (inr e) = e

other_full :
    (d m n : ℕ) (hs : List Bytes)
    → m ≡ 2 ^ d
    → (m + n ≡ 2 ^ suc d) ⊎ (hs ≡ [])
    → (n ≡ 2 ^ d) ⊎ (hs ≡ [])
other_full d m n hs full (inl e) = inl (omega (arith, pow-suc 2 d))
other_full d m n hs full (inr e) = inr e

module _ (sha256_2 : Bytes → Bytes) where
  -- A set bit above the leaves: the left branch, and the right one while hashes are left.
  rebuild-true :
      (d : ℕ) (hashes : List Bytes) (bits : List Bool)
      → 0 < length hashes
      → rebuild sha256_2 (suc d) hashes (true ∷ bits) ≡ (
          rebuild sha256_2 d hashes bits >>= λ (l, more, left_bits).
          if no_matches more
          then ok (bare sha256_2 (suc d) l.tx_hashes (sha256_2 (l.root ++ l.root)), more, left_bits)
          else (rebuild sha256_2 d more left_bits >>= λ (r, rest, right_bits). ok (
            bare sha256_2 (suc d) (l.tx_hashes ++ r.tx_hashes) (sha256_2 (l.root ++ r.root)),
            rest,
            right_bits,
          )))
  unfolding rebuild
  rebuild-true d [] bits h = absurd (omega arith)
  rebuild-true d (x ∷ xs) bits h = refl

  -- `p` is rebuilt at depth `d` from its hashes and bits, whatever bits follow; hashes may follow if
  -- the subtree is full.
  abbrev pub Rebuilds : ℕ → ℕ → Part → Type 0
  Rebuilds d n p =
      (hs : List Bytes) (bs : List Bool)
      → (n ≡ 2 ^ d) ⊎ (hs ≡ [])
      → rebuild sha256_2 d (p.merkle_hashes ++ hs) (p.bits ++ bs)
        ≡ ok (bare sha256_2 d p.tx_hashes p.root, hs, bs)

  close_node-Rebuilds :
      (d n : ℕ) (hashes txs : List Bytes) (bits : List Bool) (root : Bytes)
      → (no_matches txs ≡ false
          → (hs : List Bytes) (bs : List Bool) → (n ≡ 2 ^ suc d) ⊎ (hs ≡ [])
          → rebuild sha256_2 (suc d) (hashes ++ hs) (true ∷ (bits ++ bs))
            ≡ ok (bare sha256_2 (suc d) txs root, hs, bs))
      → Rebuilds (suc d) n (close_node (suc d) hashes txs bits root)
  unfolding close_node
  close_node-Rebuilds d n hashes txs bits root open_node hs bs full =
      elim (Bool-cases (no_matches txs)) [
        | inl closed ↦ rw (closed, no_matches-nil txs closed) (unfold rebuild in refl)
        | inr matched ↦ rw matched (open_node matched hs bs full)
      ]

  pub join_one-Rebuilds :
      (d n : ℕ) (l : Part)
      → 0 < n
      → n ≤ 2 ^ d
      → 0 < length l.merkle_hashes
      → Rebuilds d n l
      → Rebuilds (suc d) n (join_one sha256_2 (suc d) l)
  unfolding join_one
  join_one-Rebuilds d n l some_leaf small some_hash left =
      close_node-Rebuilds d n l.merkle_hashes l.tx_hashes l.bits (sha256_2 (l.root ++ l.root))
        λ _ hs bs full.
          let none_left : hs ≡ [] = half_full d n hs some_leaf small full in
          rw
            (
              none_left,
              rebuild-true d (l.merkle_hashes ++ []) (l.bits ++ bs)
                  (omega (arith, length-append {0} l.merkle_hashes [])),
              left [] bs (inr refl),
            )
            refl

  pub join_two-Rebuilds :
      (d m n : ℕ) (l r : Part)
      → m ≡ 2 ^ d
      → 0 < length l.merkle_hashes
      → 0 < length r.merkle_hashes
      → Rebuilds d m l
      → Rebuilds d n r
      → Rebuilds (suc d) (m + n) (join_two sha256_2 (suc d) l r)
  unfolding join_two
  join_two-Rebuilds d m n l r full_left some_left some_right left right =
      close_node-Rebuilds d (m + n) (l.merkle_hashes ++ r.merkle_hashes)
        (l.tx_hashes ++ r.tx_hashes) (l.bits ++ r.bits) (sha256_2 (l.root ++ r.root))
        λ _ hs bs full.
          let room = length-append {0} l.merkle_hashes (r.merkle_hashes ++ hs) in
          let more = length-append {0} r.merkle_hashes hs in
          rw
            (
              append_assoc l.merkle_hashes r.merkle_hashes hs,
              append_assoc l.bits r.bits bs,
              rebuild-true d (l.merkle_hashes ++ (r.merkle_hashes ++ hs)) (l.bits ++ (r.bits ++ bs))
                  (omega arith),
              left (r.merkle_hashes ++ hs) (r.bits ++ bs) (inl full_left),
              no_matches-pos (r.merkle_hashes ++ hs) (omega arith),
              right hs bs (other_full d m n hs full_left full),
            )
            refl

  pub close_node-hashes :
      (d : ℕ) (hashes txs : List Bytes) (bits : List Bool) (root : Bytes)
      → 0 < length hashes
      → 0 < length (close_node d hashes txs bits root).merkle_hashes
  unfolding close_node
  close_node-hashes d hashes txs bits root h = elim (Bool-cases (no_matches txs)) [
    | inl closed ↦ rw closed (omega arith)
    | inr matched ↦ rw matched h
  ]
