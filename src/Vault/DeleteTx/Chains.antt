-- ===== src/Vault/DeleteTx/Chains.antt =====
-- The recursive deletion of a transaction and of those that spend its outputs (deleteTx_unwrapped of
-- CoinDB/src/Vault.cpp).
use coin_vault.Common.{
  length, le_cases, ℕ, zero, suc, ◌+◌, ◌≤◌, ◌<◌, ◌≡◌, refl, inl, inr, Option, none, some, List,
  arith, Result, ◌>>=◌, ok,
}
use coin_vault.Vault.Outputs.{Spender}
use coin_vault.Vault.DeleteTx.{
  Row, find_row, unspend_all, spender_at, delete_spenders, remove_row, delete_row, delete_tx,
}
use coin_vault.Vault.DeleteTx.Counts.{AllBelow, count_spent}
use coin_vault.Vault.DeleteTx.Steps.{
  unspend_all-AllBelow, remove_row-AllBelow, IsLinked, unspend_all_lem, unspent, remove_row_lem,
  remove_row-Shrinks, spender_at-count, find_row_inputs, inputs_of-find_row, unspend_all-IsLinked,
  remove_row-IsLinked,
}

-- Nothing spends from itself: a transaction that spends an output of another has a higher rank.
module _ (rank : ℕ → ℕ) where
  abbrev pub IsRanked : List Row → Type 0
  IsRanked rows = (j i : ℕ) (s : Spender) → spender_at j i rows ≡ some s → rank j < rank s.tx

  -- What a deletion leaves.
  abbrev pub Deleted : ℕ → List Row → List Row → Type 0
  Deleted id rows after =
      IsLinked after
      × IsRanked after
      × ((j l : ℕ) → count_spent j l after ≤ count_spent j l rows)
      × ((l : ℕ) → count_spent id l after ≡ 0)
      × (find_row id after ≡ none)
      × ((b : ℕ) → AllBelow b rows → AllBelow b after)

  -- Every call for a stored transaction above the rank of another one succeeds.
  abbrev Deletes : (ℕ → List Row → Result (List Row)) → ℕ → Type 0
  Deletes delete id =
      (j : ℕ) (rows : List Row)
      → rank id < rank j
      → IsLinked rows
      → IsRanked rows
      → (r : Row) × (find_row j rows ≡ some r)
      → (after : List Row) × (delete j rows ≡ ok after) × Deleted j rows after

  -- What a loop over outputs gives.
  abbrev Looped : Result (List Row) → List Row → Type 0
  Looped call rows =
      (after : List Row) × (call ≡ ok after)
      × IsLinked after
      × IsRanked after
      × ((j l : ℕ) → count_spent j l after ≤ count_spent j l rows)
      × ((b : ℕ) → AllBelow b rows → AllBelow b after)

  delete_spenders_lem :
      (delete : ℕ → List Row → Result (List Row)) (id left i : ℕ) (rows : List Row)
      → Deletes delete id
      → IsLinked rows
      → IsRanked rows
      → Looped (delete_spenders delete id left i rows) rows
  unfolding delete_spenders
  delete_spenders_lem delete id zero i rows deletes linked ranked =
      (rows, refl, linked, ranked, λ j l. omega arith, λ b all. all)
  delete_spenders_lem delete id (suc left) i rows deletes linked ranked =
      spent (spender_at id i rows) refl
        (λ next. delete_spenders_lem delete id left (i + 1) next deletes)
    where
      spent :
          (o : Option Spender)
          → spender_at id i rows ≡ o
          → ((next : List Row)
              → IsLinked next
              → IsRanked next
              → Looped (delete_spenders delete id left (i + 1) next) next)
          → Looped
              (elim o [ none ↦ ok rows | some s ↦ delete s.tx rows ] >>= λ next.
                delete_spenders delete id left (i + 1) next)
              rows
      spent none e rest = rest rows linked ranked
      spent (some s) e rest =
          let has = linked.1 s.tx s.txin.txindex (spender_at-count id i rows s e) in
          let (next, gone, (linked', ranked', less, _, _, below)) =
            deletes s.tx rows (ranked id i s e) linked ranked
              (find_row_inputs s.tx s.txin.txindex rows has) in
          let (after, done, linked'', ranked'', less', below') = rest next linked' ranked' in
          (
            after,
            rw gone done,
            linked'',
            ranked'',
            λ j l. omega (arith, less j l, less' j l),
            λ b all. below' b (below b all),
          )

  -- The deletion of a stored transaction ends when there is fuel for all ranks above its own.
  pub delete_tx_lem :
      (bound : ℕ)
      → ((j : ℕ) → rank j < bound)
      → (fuel id : ℕ) (rows : List Row) (r : Row) → bound ≤ rank id + fuel
      → IsLinked rows
      → IsRanked rows
      → find_row id rows ≡ some r
      → (after : List Row) × (delete_tx fuel id rows ≡ ok after) × Deleted id rows after
  unfolding delete_tx delete_row
  delete_tx_lem bound below zero id rows r enough linked ranked found =
      absurd (omega (arith, below id))
  delete_tx_lem bound below (suc fuel) id rows r enough linked ranked found =
      let cleared = unspend_all id r.tx.txins rows in
      let (less, inputs, shrinks) = unspend_all_lem id r.tx.txins rows in
      let alone : (l : ℕ) → count_spent id l cleared ≡ 0 = λ l.
        elim (le_cases (count_spent id l rows) 0) [
          | inl few ↦ omega (arith, less id l)
          | inr some_spent ↦
              unspent id l r.tx.txins rows (linked.0 id l)
                (rw (inputs_of-find_row id rows r found) at (linked.1 id l some_spent))
        ] in
      let (after, looped, linked', ranked', less', below') =
        delete_spenders_lem (delete_tx fuel) id (length r.tx.txouts) 0 cleared
          (λ j next higher linked ranked (q, stored).
            delete_tx_lem bound below fuel j next q (omega arith) linked ranked stored)
          (unspend_all-IsLinked id r.tx.txins rows linked)
          (λ j i s e. ranked j i s (shrinks j i s e)) in
      let none_left : (l : ℕ) → count_spent id l after ≡ 0 =
        λ l. omega (arith, alone l, less' id l) in
      let (less'', gone, _) = remove_row_lem id after in
      (
        remove_row id after,
        rw (found, looped) refl,
        (
          remove_row-IsLinked id after linked' none_left,
          λ j i s e. ranked' j i s (remove_row-Shrinks id after j i s e),
          λ j l. omega (arith, less j l, less' j l, less'' j l),
          λ l. omega (arith, less'' id l, none_left l),
          gone,
          λ b all.
              remove_row-AllBelow id b after
                (below' b (unspend_all-AllBelow id b r.tx.txins rows all)),
        ),
      )
