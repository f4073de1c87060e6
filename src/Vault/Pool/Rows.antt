-- ===== src/Vault/Pool/Rows.antt =====
-- The rows of the scripts of a bin, numbered in order: where the used ones end.
use coin_vault.Common.{
  length, ℕ, suc, ◌+◌, ◌-◌, ◌≤◌, ◌<◌, max, ◌≡◌, refl, ap, ◌⊎◌, inl, inr, true, false, some, List,
  [], ◌∷◌, ◌++◌, arith, if◌then◌else◌, Bool-cases,
}
use coin_vault.Vault.Scripts.{is_unused, SigningScript}
use coin_vault.Vault.Pool.{max_index, count_unused, least, first_unused}

-- The indices count up from `n`.
abbrev pub Numbered : ℕ → List SigningScript → Type 0
Numbered n [] = Unit {0}
Numbered n (s ∷ ss) = (s.index ≡ n) × Numbered (suc n) ss

-- One more than the largest index of a script that is not unused, and 0 when all are unused.
unfoldable pub frontier : List SigningScript → ℕ
frontier [] = 0
frontier (s ∷ ss) = if is_unused s.status then frontier ss else max (suc s.index) (frontier ss)

-- Unused scripts stand behind all others.
abbrev pub AllUnused : List SigningScript → Type 0
AllUnused [] = Unit {0}
AllUnused (s ∷ ss) = (is_unused s.status ≡ true) × AllUnused ss

abbrev pub Filled : List SigningScript → Type 0
Filled [] = Unit {0}
Filled (s ∷ ss) =
    ((is_unused s.status ≡ false) × Filled ss) ⊎ ((is_unused s.status ≡ true) × AllUnused ss)

pub max_index_lem : (ss : List SigningScript) → max_index ss ≡ frontier ss - 1
unfolding max_index frontier
max_index_lem [] = refl
max_index_lem (s ∷ ss) = elim (Bool-cases (is_unused s.status)) [
  | inl e ↦ rw e (max_index_lem ss)
  | inr e ↦ rw e (omega (arith, max_index_lem ss))
]

pub Numbered-snoc :
    (n : ℕ) (ss : List SigningScript) (s : SigningScript)
    → Numbered n ss
    → s.index ≡ n + length ss
    → Numbered n (ss ++ (s ∷ []))
Numbered-snoc n [] s v h = (omega arith, tt)
Numbered-snoc n (r ∷ rs) s v h = (v.0, Numbered-snoc (suc n) rs s v.1 (omega arith))

pub frontier-snoc :
    (ss : List SigningScript) (s : SigningScript)
    → is_unused s.status ≡ true
    → frontier (ss ++ (s ∷ [])) ≡ frontier ss
unfolding frontier
frontier-snoc [] s e = rw e refl
frontier-snoc (r ∷ rs) s e = rw (frontier-snoc rs s e) refl

pub AllUnused-snoc :
    (ss : List SigningScript) (s : SigningScript)
    → is_unused s.status ≡ true
    → AllUnused ss
    → AllUnused (ss ++ (s ∷ []))
AllUnused-snoc [] s e v = (e, tt)
AllUnused-snoc (r ∷ rs) s e v = (v.0, AllUnused-snoc rs s e v.1)

pub Filled-snoc :
    (ss : List SigningScript) (s : SigningScript)
    → is_unused s.status ≡ true
    → Filled ss
    → Filled (ss ++ (s ∷ []))
Filled-snoc [] s e v = inr (e, tt)
Filled-snoc (r ∷ rs) s e (inl (here, v)) = inl (here, Filled-snoc rs s e v)
Filled-snoc (r ∷ rs) s e (inr (here, v)) = inr (here, AllUnused-snoc rs s e v)

pub count_unused-snoc :
    (ss : List SigningScript) (s : SigningScript)
    → is_unused s.status ≡ true
    → count_unused (ss ++ (s ∷ [])) ≡ suc (count_unused ss)
unfolding count_unused
count_unused-snoc [] s e = rw e refl
count_unused-snoc (r ∷ rs) s e = elim (Bool-cases (is_unused r.status)) [
  | inl u ↦ rw (u, count_unused-snoc rs s e) refl
  | inr u ↦ rw (u, count_unused-snoc rs s e) refl
]

pub frontier_bound :
    (n : ℕ) (ss : List SigningScript)
    → Numbered n ss
    → ((frontier ss ≡ 0) × AllUnused ss) ⊎ ((n < frontier ss) × (frontier ss ≤ n + length ss))
unfolding frontier
frontier_bound n [] v = inl (refl, tt)
frontier_bound n (s ∷ ss) v = elim (Bool-cases (is_unused s.status)) [
  | inl e ↦ elim (frontier_bound (suc n) ss v.1) [
    | inl (none_used, all) ↦ inl (rw e none_used, (e, all))
    | inr (low, high) ↦ inr (rw e (omega arith), rw e (omega arith))
  ]
  | inr e ↦ elim (frontier_bound (suc n) ss v.1) [
    | inl (none_used, all) ↦
        inr (rw e (omega (arith, v.0, none_used)), rw e (omega (arith, v.0, none_used)))
    | inr (low, high) ↦ inr (rw e (omega (arith, v.0)), rw e (omega (arith, v.0)))
  ]
]

pub AllUnused-frontier : (ss : List SigningScript) → AllUnused ss → frontier ss ≡ 0
unfolding frontier
AllUnused-frontier [] all = refl
AllUnused-frontier (s ∷ ss) all = rw all.0 (AllUnused-frontier ss all.1)

-- No unused script stands before the first number.
least-first_unused :
    (n m : ℕ) (ss : List SigningScript) → n ≤ m → Numbered m ss → least n (first_unused ss) ≡ n
unfolding first_unused
least-first_unused n m [] h v = refl
least-first_unused n m (s ∷ ss) h v = elim (Bool-cases (is_unused s.status)) [
  | inl e ↦ rw (e, v.0, least-first_unused m (suc m) ss (omega arith) v.1) (omega arith)
  | inr e ↦ rw e (least-first_unused n (suc m) ss (omega arith) v.1)
]

-- The first unused script stands at the frontier.
pub first_unused_lem :
    (n : ℕ) (ss : List SigningScript)
    → Numbered n ss
    → Filled ss
    → 0 < count_unused ss
    → first_unused ss ≡ some (max n (frontier ss))
unfolding first_unused count_unused frontier
first_unused_lem n [] v f h = absurd (omega arith)
first_unused_lem n (s ∷ ss) v (inl (e, f)) h =
    rw (e, first_unused_lem (suc n) ss v.1 f (rw e at h), v.0)
      (ap (λ (k : ℕ). some k) (omega arith))
first_unused_lem n (s ∷ ss) v (inr (e, all)) h =
    rw (e, AllUnused-frontier ss all, v.0, least-first_unused n (suc n) ss (omega arith) v.1)
      (ap (λ (k : ℕ). some k) (omega arith))

-- While a script is unused, the frontier is an index of the bin.
pub frontier-count_unused :
    (n : ℕ) (ss : List SigningScript)
    → Numbered n ss
    → Filled ss
    → 0 < count_unused ss
    → max n (frontier ss) < n + length ss
unfolding frontier count_unused
frontier-count_unused n [] v f h = absurd (omega arith)
frontier-count_unused n (s ∷ ss) v (inl (e, f)) h =
    rw e (omega (arith, v.0, frontier-count_unused (suc n) ss v.1 f (rw e at h)))
frontier-count_unused n (s ∷ ss) v (inr (e, all)) h =
    rw e (omega (arith, AllUnused-frontier ss all))
