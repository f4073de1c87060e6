-- ===== src/Vault/Arrivals/Outputs.antt =====
-- The outputs of a transaction that arrives before those that spend them: check_outputs of
-- Vault.Arrivals (insertTx_unwrapped of CoinDB/src/Vault.cpp).
use coin_vault.Common.{
  Bytes, u64, ℕ, zero, suc, ◌+◌, ◌≡◌, refl, sym, ap, ◌∙◌, Bool, true, false, ◌||◌, Option, none,
  some, List, [], ◌∷◌, arith, Result, ◌>>=◌, >>=-eq-ok, ok-injective, ok,
}
use coin_vault.Vault.Outputs.{TxOut, Spender, Receiver, set_signingscript}
use mathlib.Core.Path.{subst}
use coin_vault.Vault.DeleteTx.{Row, spender_of}
use coin_vault.Vault.DeleteTx.Counts.{count_outputs}
use coin_vault.Vault.Arrivals.{
  ScriptTable, find_spender, spent_early, receive_output, check_outputs, is_known,
}

-- No output is spent.
abbrev pub AllUnspent : List TxOut → Type 0
AllUnspent [] = Unit {0}
AllUnspent (t ∷ ts) = (t.spender ≡ none) × AllUnspent ts

pub AllUnspent-count : (j l : ℕ) (ts : List TxOut) → AllUnspent ts → count_outputs j l ts ≡ 0
AllUnspent-count j l [] all = refl
AllUnspent-count j l (t ∷ ts) all = rw all.0 (omega (arith, AllUnspent-count j l ts all.1))

pub AllUnspent-spender_of : (i : ℕ) (ts : List TxOut) → AllUnspent ts → spender_of i ts ≡ none
unfolding spender_of
AllUnspent-spender_of i [] all = refl
AllUnspent-spender_of zero (t ∷ ts) all = all.0
AllUnspent-spender_of (suc i) (t ∷ ts) all = AllUnspent-spender_of i ts all.1

-- No stored input refers to the transaction with this hash.
abbrev pub InOrder : Bytes → List Row → Type 0
InOrder hash rows = (index : ℕ) → find_spender hash index rows ≡ none

module _ (scripts : ScriptTable) where
  open scripts use {Table, find}

  receive_output_lem :
      (sent : Bool) (hash : Bytes) (rows : List Row) (t : TxOut) (r : Receiver) (table : Table)
      {paid : TxOut} {after : Table}
      → InOrder hash rows
      → t.spender ≡ none
      → receive_output scripts sent hash rows t r table ≡ ok (paid, after)
      → paid.spender ≡ none
  unfolding receive_output set_signingscript spent_early
  receive_output_lem sent hash rows t r table in_order unspent returns =
      let paid : TxOut = record t { script = r.txoutscript; receiver = some r } in
      let (next, _, result) =
        >>=-eq-ok (scripts.receive sent t.script table)
          (λ (next : Table). ok (spent_early (find_spender hash t.txindex rows) paid, next))
          returns in
      let early : (spent_early (find_spender hash t.txindex rows) paid).spender ≡ none =
        ap (λ (o : Option Spender). (spent_early o paid).spender) (in_order t.txindex) ∙ unspent in
      ap (λ (q : TxOut × Table). q.0.spender) (sym (ok-injective result)) ∙ early

  abbrev Received : Type 0
  Received = List TxOut × Table × Bool × ℕ

  -- An output has been looked at, and the others follow.
  abbrev following :
      Bool → Bytes → List Row → List TxOut → Bool → ℕ → TxOut × Table → Result Received
  following sent hash rows ts to_vault total (paid, next) = do
    (later, after, any, sum) ← check_outputs scripts sent hash rows ts next to_vault total
    ok (paid ∷ later, after, any, sum)

  following_lem :
      (sent : Bool) (hash : Bytes) (rows : List Row) (ts : List TxOut) (to_vault : Bool) (total : ℕ)
      (p : TxOut × Table) (q : Received)
      → p.0.spender ≡ none
      → ((next : Table) (r : Received)
          → check_outputs scripts sent hash rows ts next to_vault total ≡ ok r
          → AllUnspent r.0)
      → following sent hash rows ts to_vault total p ≡ ok q
      → AllUnspent q.0
  following_lem sent hash rows ts to_vault total (paid, next) q unspent later returns =
      let (r, checked, result) =
        >>=-eq-ok (check_outputs scripts sent hash rows ts next to_vault total)
          (λ (r : Received). ok (paid ∷ r.0, r.1, r.2, r.3)) returns in
      subst (λ (q : Received). AllUnspent q.0) (ok-injective result) (unspent, later next r checked)

  pub check_outputs-AllUnspent :
      (sent : Bool) (hash : Bytes) (rows : List Row) (ts : List TxOut) (table : Table)
      (to_vault : Bool) (total : ℕ) (q : List TxOut × Table × Bool × ℕ)
      → InOrder hash rows
      → AllUnspent ts
      → check_outputs scripts sent hash rows ts table to_vault total ≡ ok q
      → AllUnspent q.0
  unfolding check_outputs
  check_outputs-AllUnspent sent hash rows [] table to_vault total q in_order all returns =
      subst (λ (q : Received). AllUnspent q.0) (ok-injective returns) tt
  check_outputs-AllUnspent sent hash rows (t ∷ ts) table to_vault total q in_order all returns =
      split (find t.script table) returns (λ to_vault total next r.
        check_outputs-AllUnspent sent hash rows ts next to_vault total r in_order all.1)
    where
      split :
          (o : Option Receiver)
          → (elim o [
            | none ↦ ok (t, table)
            | some r ↦ receive_output scripts sent hash rows t r table
          ]
              >>= following sent hash rows ts (to_vault || is_known o) (u64 (total + t.value)))
            ≡ ok q
          → ((to_vault : Bool) (total : ℕ) (next : Table) (r : Received)
              → check_outputs scripts sent hash rows ts next to_vault total ≡ ok r
              → AllUnspent r.0)
          → AllUnspent q.0
      split none e later =
          following_lem sent hash rows ts (to_vault || false) (u64 (total + t.value)) (t, table) q
            all.0 (later (to_vault || false) (u64 (total + t.value))) e
      split (some r) e later =
          let (p, received, result) =
            >>=-eq-ok (receive_output scripts sent hash rows t r table)
              (following sent hash rows ts (to_vault || true) (u64 (total + t.value))) e in
          following_lem sent hash rows ts (to_vault || true) (u64 (total + t.value)) p q
            (receive_output_lem sent hash rows t r table in_order all.0 received)
            (later (to_vault || true) (u64 (total + t.value))) result
