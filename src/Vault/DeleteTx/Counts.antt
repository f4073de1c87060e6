-- ===== src/Vault/DeleteTx/Counts.antt =====
-- How many outputs an input spends, and what the steps of a deletion do to this.
use coin_vault.Common.{
  ℕ, zero, suc, ◌+◌, ◌-◌, ◌≤◌, ◌<◌, ◌≡◌, refl, ap, inl, inr, Bool, true, false, ◌||◌, none, some,
  List, [], ◌∷◌, arith, ◌==◌, if◌then◌else◌, Bool-cases,
}
use coin_vault.Vault.Inputs.{TxIn}
use coin_vault.Vault.Outputs.{TxOut, Spender, set_spent}
use coin_vault.Vault.DeleteTx.{
  Row, find_row, is_spent_by, unspend_outputs, unspend, spender_of, spender_at,
}

abbrev pub one_if : Bool → ℕ
one_if true = 1
one_if false = 0

abbrev pub count_outputs : ℕ → ℕ → List TxOut → ℕ
count_outputs id index [] = 0
count_outputs id index (t ∷ ts) =
    one_if (is_spent_by id index t.spender) + count_outputs id index ts

-- The outputs that an input of a transaction spends.
abbrev pub count_spent : ℕ → ℕ → List Row → ℕ
count_spent id index [] = 0
count_spent id index (r ∷ rs) = count_outputs id index r.tx.txouts + count_spent id index rs

unspend_outputs_lem :
    (id index : ℕ) (ts : List TxOut)
    → (count_outputs id index ts
        ≡ one_if (unspend_outputs id index ts).1
          + count_outputs id index (unspend_outputs id index ts).0)
      × ((unspend_outputs id index ts).1 ≡ false → count_outputs id index ts ≡ 0)
      × ((j l : ℕ) → count_outputs j l (unspend_outputs id index ts).0 ≤ count_outputs j l ts)
unfolding unspend_outputs set_spent
unspend_outputs_lem id index [] = (refl, λ e. refl, λ j l. omega arith)
unspend_outputs_lem id index (t ∷ ts) = elim (Bool-cases (is_spent_by id index t.spender)) [
  | inl here ↦ (rw here (omega arith), λ e. cc, λ j l. rw here (omega arith))
  | inr e ↦
      let (sum, nothing, less) = unspend_outputs_lem id index ts in
      let zero : one_if (is_spent_by id index t.spender) ≡ 0 = ap one_if e in
      (
        rw e (omega (arith, zero, sum)),
        λ f. rw e (omega (arith, zero, nothing (rw e at f))),
        λ j l. rw e (omega (arith, less j l)),
      )
]

-- An input spends one output less than before, and no other input spends more.
pub unspend_lem :
    (id index : ℕ) (rows : List Row)
    → (count_spent id index (unspend id index rows) ≡ count_spent id index rows - 1)
      × ((j l : ℕ) → count_spent j l (unspend id index rows) ≤ count_spent j l rows)
unfolding unspend
unspend_lem id index [] = (refl, λ j l. omega arith)
unspend_lem id index (r ∷ rs) =
    let (sum, nothing, less) = unspend_outputs_lem id index r.tx.txouts in
    elim (Bool-cases (unspend_outputs id index r.tx.txouts).1) [
      | inl e ↦ (rw e (omega (arith, rw e at sum)), λ j l. rw e (omega (arith, less j l)))
      | inr e ↦
          let (one, later) = unspend_lem id index rs in
          (rw e (omega (arith, nothing e, one)), λ j l. rw e (omega (arith, later j l)))
    ]

abbrev pub inputs_of : ℕ → List Row → List TxIn
inputs_of id [] = []
inputs_of id (r ∷ rs) = let later = inputs_of id rs in if r.id == id then r.tx.txins else later

abbrev pub has_index : ℕ → List TxIn → Bool
has_index index [] = false
has_index index (t ∷ ts) = t.txindex == index || has_index index ts

-- The inputs of the transactions stay.
pub inputs_of-unspend :
    (id index j : ℕ) (rows : List Row) → inputs_of j (unspend id index rows) ≡ inputs_of j rows
unfolding unspend find_row
inputs_of-unspend id index j [] = refl
inputs_of-unspend id index j (r ∷ rs) = elim (Bool-cases (unspend_outputs id index r.tx.txouts).1) [
  | inl e ↦ elim (Bool-cases (r.id == j)) [
    | inl same ↦ rw (e, same) refl
    | inr other ↦ rw (e, other) refl
  ]
  | inr e ↦ elim (Bool-cases (r.id == j)) [
    | inl same ↦ rw (e, same) refl
    | inr other ↦ rw (e, other) (inputs_of-unspend id index j rs)
  ]
]

spender_of-unspend_outputs :
    (id index i : ℕ) (ts : List TxOut) {s : Spender}
    → spender_of i (unspend_outputs id index ts).0 ≡ some s
    → spender_of i ts ≡ some s
unfolding unspend_outputs spender_of set_spent
spender_of-unspend_outputs id index zero [] e = e
spender_of-unspend_outputs id index (suc i) [] e = e
spender_of-unspend_outputs id index zero (t ∷ ts) e =
    elim (Bool-cases (is_spent_by id index t.spender)) [
      | inl here ↦ let f : none ≡ some _ = rw here at e in cc
      | inr other ↦ rw other at e
    ]
spender_of-unspend_outputs id index (suc i) (t ∷ ts) e =
    elim (Bool-cases (is_spent_by id index t.spender)) [
      | inl here ↦ rw here at e
      | inr other ↦ spender_of-unspend_outputs id index i ts (rw other at e)
    ]

-- No output gets a new spender.
abbrev pub Shrinks : List Row → List Row → Type 0
Shrinks rows after =
    (j i : ℕ) (s : Spender) → spender_at j i after ≡ some s → spender_at j i rows ≡ some s

pub unspend-Shrinks : (id index : ℕ) (rows : List Row) → Shrinks rows (unspend id index rows)
unfolding unspend spender_at
unspend-Shrinks id index [] j i s e = e
unspend-Shrinks id index (r ∷ rs) j i s e =
    elim (Bool-cases (unspend_outputs id index r.tx.txouts).1) [
      | inl found ↦ elim (Bool-cases (r.id == j)) [
        | inl same ↦
            rw same (spender_of-unspend_outputs id index i r.tx.txouts (rw (found, same) at e))
        | inr other ↦ rw other (rw (found, other) at e)
      ]
      | inr found ↦ elim (Bool-cases (r.id == j)) [
        | inl same ↦ rw same (rw (found, same) at e)
        | inr other ↦ rw other (unspend-Shrinks id index rs j i s (rw (found, other) at e))
      ]
    ]

-- Every key is below a number.
abbrev pub AllBelow : ℕ → List Row → Type 0
AllBelow next [] = Unit {0}
AllBelow next (r ∷ rs) = (r.id < next) × AllBelow next rs

pub unspend-AllBelow :
    (id index b : ℕ) (rows : List Row) → AllBelow b rows → AllBelow b (unspend id index rows)
unfolding unspend
unspend-AllBelow id index b [] all = tt
unspend-AllBelow id index b (r ∷ rs) all =
    elim (Bool-cases (unspend_outputs id index r.tx.txouts).1) [
      | inl e ↦ rw e all
      | inr e ↦ rw e (all.0, unspend-AllBelow id index b rs all.1)
    ]
