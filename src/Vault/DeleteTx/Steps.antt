-- ===== src/Vault/DeleteTx/Steps.antt =====
-- The loops of deleteTx_unwrapped of CoinDB/src/Vault.cpp: what they do to the outputs that inputs
-- spend.
use coin_vault.Common.{
  ℕ, zero, suc, ◌≤◌, ◌<◌, ◌≡◌, refl, sym, ap, ◌∙◌, inl, inr, true, false, Option, none, some, List,
  [], ◌∷◌, arith, ◌==◌, Bool-cases, ==-refl, if_cases, ==-true,
}
use coin_vault.Vault.Inputs.{TxIn}
use coin_vault.Vault.Outputs.{TxOut, Spender}
use coin_vault.Vault.DeleteTx.{
  Row, find_row, unspend, unspend_all, spender_of, spender_at, remove_row,
}
use coin_vault.Vault.DeleteTx.Counts.{
  AllBelow, unspend-AllBelow, count_outputs, count_spent, inputs_of, has_index, unspend_lem,
  inputs_of-unspend, Shrinks, unspend-Shrinks,
}

-- What spends an output is an input of a stored transaction, and spends no other output.
abbrev pub IsLinked : List Row → Type 0
IsLinked rows =
    ((j l : ℕ) → count_spent j l rows ≤ 1)
    × ((j l : ℕ) → 0 < count_spent j l rows → has_index l (inputs_of j rows) ≡ true)

-- The loop over the inputs.
pub unspend_all_lem :
    (id : ℕ) (ts : List TxIn) (rows : List Row)
    → ((j l : ℕ) → count_spent j l (unspend_all id ts rows) ≤ count_spent j l rows)
      × ((j : ℕ) → inputs_of j (unspend_all id ts rows) ≡ inputs_of j rows)
      × Shrinks rows (unspend_all id ts rows)
unfolding unspend_all
unspend_all_lem id [] rows = (λ j l. omega arith, λ j. refl, λ j i s e. e)
unspend_all_lem id (t ∷ ts) rows =
    let (one, less) = unspend_lem id t.txindex rows in
    let (less', inputs, shrinks) = unspend_all_lem id ts (unspend id t.txindex rows) in
    (
      λ j l. omega (arith, less j l, less' j l),
      λ j. inputs j ∙ inputs_of-unspend id t.txindex j rows,
      λ j i s e. unspend-Shrinks id t.txindex rows j i s (shrinks j i s e),
    )

pub unspent :
    (id l : ℕ) (ts : List TxIn) (rows : List Row)
    → count_spent id l rows ≤ 1
    → has_index l ts ≡ true
    → count_spent id l (unspend_all id ts rows) ≡ 0
unfolding unspend_all
unspent id l [] rows few has = cc
unspent id l (t ∷ ts) rows few has =
    let (one, less) = unspend_lem id t.txindex rows in
    elim (Bool-cases (t.txindex == l)) [
      | inl same ↦
          let (less', _, _) = unspend_all_lem id ts (unspend id t.txindex rows) in
          let e : t.txindex ≡ l = ==-true t.txindex l same in
          let gone : count_spent id l (unspend id t.txindex rows) ≡ 0 =
            rw (← e) (omega (arith, one, few, ap (λ (k : ℕ). count_spent id k rows) e)) in
          omega (arith, less' id l, gone)
      | inr other ↦
          unspent id l ts (unspend id t.txindex rows) (omega (arith, less id l, few))
            (rw other at has)
    ]

-- The removal of the row.
pub remove_row_lem :
    (id : ℕ) (rows : List Row)
    → ((j l : ℕ) → count_spent j l (remove_row id rows) ≤ count_spent j l rows)
      × (find_row id (remove_row id rows) ≡ none)
      × ((i : ℕ) → spender_at id i (remove_row id rows) ≡ none)
unfolding remove_row find_row spender_at
remove_row_lem id [] = (λ j l. omega arith, refl, λ i. refl)
remove_row_lem id (r ∷ rs) =
    let (less, gone, silent) = remove_row_lem id rs in
    elim (Bool-cases (r.id == id)) [
      | inl e ↦ (λ j l. rw e (omega (arith, less j l)), rw e gone, λ i. rw e (silent i))
      | inr e ↦ (λ j l. rw e (omega (arith, less j l)), rw (e, e) gone, λ i. rw (e, e) (silent i))
    ]

inputs_of-remove_row :
    (id j : ℕ) (rows : List Row)
    → (j == id) ≡ false
    → inputs_of j (remove_row id rows) ≡ inputs_of j rows
unfolding remove_row
inputs_of-remove_row id j [] e = refl
inputs_of-remove_row id j (r ∷ rs) e = elim (Bool-cases (r.id == id)) [
  | inl gone ↦
      let other : (r.id == j) ≡ false = ground arith in
      rw (gone, other) (inputs_of-remove_row id j rs e)
  | inr kept ↦ elim (Bool-cases (r.id == j)) [
    | inl here ↦ rw (kept, here) refl
    | inr other ↦ rw (kept, other) (inputs_of-remove_row id j rs e)
  ]
]

pub remove_row-Shrinks : (id : ℕ) (rows : List Row) → Shrinks rows (remove_row id rows)
unfolding remove_row spender_at
remove_row-Shrinks id [] j i s e = e
remove_row-Shrinks id (r ∷ rs) j i s e = elim (Bool-cases (r.id == id)) [
  | inl gone ↦ elim (Bool-cases (r.id == j)) [
    | inl here ↦
        let same : id ≡ j = omega (arith, ==-true r.id id gone, ==-true r.id j here) in
        let silent : spender_at j i (remove_row id rs) ≡ none =
          rw (← same) ((remove_row_lem id rs).2 i) in
        let f : some s ≡ none = sym (rw gone at e) ∙ silent in cc
    | inr other ↦ rw other (remove_row-Shrinks id rs j i s (rw gone at e))
  ]
  | inr kept ↦ elim (Bool-cases (r.id == j)) [
    | inl here ↦ rw here (rw (kept, here) at e)
    | inr other ↦ rw other (remove_row-Shrinks id rs j i s (rw (kept, other) at e))
  ]
]

spender_of-count :
    (i : ℕ) (ts : List TxOut) (s : Spender)
    → spender_of i ts ≡ some s
    → 0 < count_outputs s.tx s.txin.txindex ts
unfolding spender_of
spender_of-count i [] s e = cc
spender_of-count zero (t ∷ ts) s e = rw e (rw (==-refl s.tx, ==-refl s.txin.txindex) (omega arith))
spender_of-count (suc i) (t ∷ ts) s e = omega (arith, spender_of-count i ts s e)

pub spender_at-count :
    (j i : ℕ) (rows : List Row) (s : Spender)
    → spender_at j i rows ≡ some s
    → 0 < count_spent s.tx s.txin.txindex rows
unfolding spender_at
spender_at-count j i [] s e = cc
spender_at-count j i (r ∷ rs) s e = elim (if_cases (r.id == j) e) [
  | inl (_, here) ↦ omega (arith, spender_of-count i r.tx.txouts s here)
  | inr (_, later) ↦ omega (arith, spender_at-count j i rs s later)
]

-- A transaction that has an input is stored.
pub find_row_inputs :
    (id l : ℕ) (rows : List Row)
    → has_index l (inputs_of id rows) ≡ true
    → (r : Row) × (find_row id rows ≡ some r)
unfolding find_row
find_row_inputs id l [] has = cc
find_row_inputs id l (r ∷ rs) has = elim (Bool-cases (r.id == id)) [
  | inl e ↦ (r, rw e refl)
  | inr e ↦ let (s, found) = find_row_inputs id l rs (rw e at has) in (s, rw e found)
]

pub inputs_of-find_row :
    (id : ℕ) (rows : List Row) (r : Row)
    → find_row id rows ≡ some r
    → inputs_of id rows ≡ r.tx.txins
unfolding find_row
inputs_of-find_row id [] r e = cc
inputs_of-find_row id (q ∷ qs) r e = elim (if_cases (q.id == id) e) [
  | inl (same, here) ↦ rw same (ap (λ (o : Option Row). inputs_or_none o) here)
  | inr (other, later) ↦ rw other (inputs_of-find_row id qs r later)
]
  where
    inputs_or_none : Option Row → List TxIn
    inputs_or_none none = []
    inputs_or_none (some p) = p.tx.txins

pub unspend_all-IsLinked :
    (id : ℕ) (ts : List TxIn) (rows : List Row) → IsLinked rows → IsLinked (unspend_all id ts rows)
unspend_all-IsLinked id ts rows (few, has) =
    let (less, inputs, _) = unspend_all_lem id ts rows in
    (
      λ j l. omega (arith, less j l, few j l),
      λ j l h. rw (inputs j) (has j l (omega (arith, less j l))),
    )

pub remove_row-IsLinked :
    (id : ℕ) (rows : List Row)
    → IsLinked rows
    → ((l : ℕ) → count_spent id l rows ≡ 0)
    → IsLinked (remove_row id rows)
remove_row-IsLinked id rows (few, has) none_left =
    let (less, _, _) = remove_row_lem id rows in
    (
      λ j l. omega (arith, less j l, few j l),
      λ j l h. elim (Bool-cases (j == id)) [
        | inl e ↦
            let same = ==-true j id e in
            absurd (omega (arith, less j l, none_left l, ap (λ (k : ℕ). count_spent k l rows) same))
        | inr e ↦ rw (inputs_of-remove_row id j rows e) (has j l (omega (arith, less j l)))
      ],
    )

pub unspend_all-AllBelow :
    (id b : ℕ) (ts : List TxIn) (rows : List Row)
    → AllBelow b rows
    → AllBelow b (unspend_all id ts rows)
unfolding unspend_all
unspend_all-AllBelow id b [] rows all = all
unspend_all-AllBelow id b (t ∷ ts) rows all =
    unspend_all-AllBelow id b ts (unspend id t.txindex rows)
      (unspend-AllBelow id t.txindex b rows all)

pub remove_row-AllBelow :
    (id b : ℕ) (rows : List Row) → AllBelow b rows → AllBelow b (remove_row id rows)
unfolding remove_row
remove_row-AllBelow id b [] all = tt
remove_row-AllBelow id b (r ∷ rs) all = elim (Bool-cases (r.id == id)) [
  | inl e ↦ rw e (remove_row-AllBelow id b rs all.1)
  | inr e ↦ rw e (all.0, remove_row-AllBelow id b rs all.1)
]
