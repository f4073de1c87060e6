-- ===== src/Vault/Pool/Gaps.antt =====
-- What refilling does to the rows of a bin: it closes the gaps among the used scripts.
use coin_vault.Common.{
  length, le_cases, ℕ, suc, ◌≤◌, ◌<◌, max, ◌≡◌, refl, ap, ◌⊎◌, inl, inr, true, false, ◌&&◌, List,
  [], ◌∷◌, arith, ltb, if◌then◌else◌, Bool-cases, ltb-true, ltb-false, leb-false,
}
use coin_vault.Vault.Scripts.{issued, is_unused, SigningScript, AccountBin, set_status, mark_issued}
use coin_vault.Vault.Pool.{issue_below}
use coin_vault.Vault.Pool.Rows.{Numbered, frontier, AllUnused, Filled, frontier_bound}

-- A row behind the loop over the scripts below `largest`.
unfoldable pub issued_row : ℕ → SigningScript → SigningScript
issued_row largest s =
    if is_unused s.status && ltb s.index largest then record s { status = issued } else s

row_cases :
    (largest : ℕ) (s : SigningScript)
    → ((is_unused s.status ≡ false) × (issued_row largest s ≡ s))
      ⊎ (((is_unused s.status ≡ true)
            × (s.index < largest)
            × (issued_row largest s ≡ record s { status = issued }))
          ⊎ ((is_unused s.status ≡ true) × (largest ≤ s.index) × (issued_row largest s ≡ s)))
unfolding issued_row
row_cases largest s = elim (Bool-cases (is_unused s.status)) [
  | inr e ↦ inl (e, rw e refl)
  | inl e ↦ inr (elim (le_cases largest s.index) [
    | inl h ↦ inr (e, h, rw (e, ltb-false s.index largest h) refl)
    | inr h ↦ inl (e, h, rw (e, ltb-true s.index largest h) refl)
  ])
]

unfoldable pub issued_rows : ℕ → List SigningScript → List SigningScript
issued_rows largest [] = []
issued_rows largest (s ∷ ss) = issued_row largest s ∷ issued_rows largest ss

-- The bin already counts this index as issued.
pub mark_known : (i : ℕ) (bin : AccountBin) → i < bin.next_script_index → mark_issued i bin ≡ bin
unfolding mark_issued
mark_known i bin h = rw (leb-false bin.next_script_index i h) refl

issue_row :
    (largest : ℕ) (s : SigningScript) (bin : AccountBin)
    → largest ≤ bin.next_script_index
    → (if is_unused s.status && ltb s.index largest then set_status issued s bin else (s, bin))
      ≡ (issued_row largest s, bin)
unfolding set_status
issue_row largest s bin h = elim (row_cases largest s) [
  | inl (e, same) ↦ rw (same, e) refl
  | inr (inl (e, low, new)) ↦
      rw (new, e, ltb-true s.index largest low, mark_known s.index bin (omega arith)) refl
  | inr (inr (e, high, same)) ↦ rw (same, e, ltb-false s.index largest high) refl
]

-- The bin knows the largest index already, so that it stays as it is.
pub issue_below-issued_rows :
    (largest : ℕ) (ss : List SigningScript) (bin : AccountBin)
    → largest ≤ bin.next_script_index
    → issue_below largest ss bin ≡ (issued_rows largest ss, bin)
unfolding issue_below issued_rows
issue_below-issued_rows largest [] bin h = refl
issue_below-issued_rows largest (s ∷ ss) bin h =
    rw (issue_row largest s bin h, issue_below-issued_rows largest ss bin h) refl

-- Rows in front of which nothing is used stay as they are.
issued_rows-AllUnused :
    (largest n : ℕ) (ss : List SigningScript)
    → largest ≤ n
    → Numbered n ss
    → AllUnused ss
    → issued_rows largest ss ≡ ss
unfolding issued_rows
issued_rows-AllUnused largest n [] h v all = refl
issued_rows-AllUnused largest n (s ∷ ss) h v all = elim (row_cases largest s) [
  | inl (e, _) ↦ absurd (cc)
  | inr (inl (_, low, _)) ↦ absurd (omega (arith, v.0))
  | inr (inr (_, _, same)) ↦
      rw (same, issued_rows-AllUnused largest (suc n) ss (omega arith) v.1 all.1) refl
]

-- When `largest` is the largest index in use, no script in front of it is unused afterwards.
pub issued_rows-Filled :
    (largest n : ℕ) (ss : List SigningScript)
    → Numbered n ss
    → ((frontier ss ≡ 0) × (largest ≤ n)) ⊎ (frontier ss ≡ suc largest)
    → Filled (issued_rows largest ss)
unfolding issued_rows frontier
issued_rows-Filled largest n [] v h = tt
issued_rows-Filled largest n (s ∷ ss) v h = elim (row_cases largest s) [
  | inl (e, same) ↦
      rw same (inl (e, issued_rows-Filled largest (suc n) ss v.1 (behind (rw e at h))))
  | inr (inl (e, low, new)) ↦
      rw new (inl (refl, issued_rows-Filled largest (suc n) ss v.1 (above low (rw e at h))))
  | inr (inr (e, high, same)) ↦
      let all = rest_unused high (rw e at h) in
      rw (same, issued_rows-AllUnused largest (suc n) ss (omega (arith, v.0)) v.1 all)
        (inr (e, all))
]
  where
    behind :
        ((max (suc s.index) (frontier ss) ≡ 0) × (largest ≤ n))
          ⊎ (max (suc s.index) (frontier ss) ≡ suc largest)
        → ((frontier ss ≡ 0) × (largest ≤ suc n)) ⊎ (frontier ss ≡ suc largest)
    behind (inl (z, _)) = absurd (omega arith)
    behind (inr e) = elim (frontier_bound (suc n) ss v.1) [
      | inl (z, _) ↦ inl (z, omega (arith, v.0, z, e))
      | inr (low, _) ↦ inr (omega (arith, v.0, low, e))
    ]

    above :
        s.index < largest
        → ((frontier ss ≡ 0) × (largest ≤ n)) ⊎ (frontier ss ≡ suc largest)
        → ((frontier ss ≡ 0) × (largest ≤ suc n)) ⊎ (frontier ss ≡ suc largest)
    above low (inl (z, h)) = inl (z, omega arith)
    above low (inr e) = inr e

    rest_unused :
        largest ≤ s.index
        → ((frontier ss ≡ 0) × (largest ≤ n)) ⊎ (frontier ss ≡ suc largest)
        → AllUnused ss
    rest_unused high (inl (z, _)) = elim (frontier_bound (suc n) ss v.1) [
      | inl (_, all) ↦ all
      | inr (low, _) ↦ absurd (omega (arith, z, low))
    ]
    rest_unused high (inr e) = elim (frontier_bound (suc n) ss v.1) [
      | inl (_, all) ↦ all
      | inr (low, _) ↦ absurd (omega (arith, e, low, v.0))
    ]

pub frontier-issued_rows :
    (largest : ℕ) (ss : List SigningScript)
    → (frontier ss ≤ frontier (issued_rows largest ss))
      × (frontier (issued_rows largest ss) ≤ max largest (frontier ss))
unfolding issued_rows frontier
frontier-issued_rows largest [] = (omega arith, omega arith)
frontier-issued_rows largest (s ∷ ss) =
    let (low, high) = frontier-issued_rows largest ss in
    elim (row_cases largest s) [
      | inl (e, same) ↦ (rw (same, e) (omega arith), rw (same, e) (omega arith))
      | inr (inl (e, below, new)) ↦ (rw (new, e) (omega arith), rw (new, e) (omega arith))
      | inr (inr (e, _, same)) ↦ (rw (same, e) (omega arith), rw (same, e) (omega arith))
    ]

pub Numbered-issued_rows :
    (largest n : ℕ) (ss : List SigningScript) → Numbered n ss → Numbered n (issued_rows largest ss)
unfolding issued_rows issued_row
Numbered-issued_rows largest n [] v = tt
Numbered-issued_rows largest n (s ∷ ss) v = (
  elim (row_cases largest s) [
    | inl (_, same) ↦ rw same v.0
    | inr (inl (_, _, new)) ↦ rw new v.0
    | inr (inr (_, _, same)) ↦ rw same v.0
  ],
  Numbered-issued_rows largest (suc n) ss v.1,
)

pub length-issued_rows :
    (largest : ℕ) (ss : List SigningScript) → length (issued_rows largest ss) ≡ length ss
unfolding issued_rows
length-issued_rows largest [] = refl
length-issued_rows largest (s ∷ ss) = ap suc (length-issued_rows largest ss)

pub issued_rows-zero : (ss : List SigningScript) → issued_rows 0 ss ≡ ss
unfolding issued_rows
issued_rows-zero [] = refl
issued_rows-zero (s ∷ ss) = elim (row_cases 0 s) [
  | inl (_, same) ↦ rw (same, issued_rows-zero ss) refl
  | inr (inl (_, low, _)) ↦ absurd (omega arith)
  | inr (inr (_, _, same)) ↦ rw (same, issued_rows-zero ss) refl
]
