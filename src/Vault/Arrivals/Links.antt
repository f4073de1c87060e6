-- ===== src/Vault/Arrivals/Links.antt =====
-- What the rest of insertTx_unwrapped of CoinDB/src/Vault.cpp does to the links between inputs and
-- outputs.
use coin_vault.Common.{
  Bytes, ℕ, ◌≡◌, refl, sym, ap, inl, inr, Bool, true, not, ◌&&◌, List, [], ◌∷◌, arith, leb,
  Bool-cases, if_cases, ◌>>=◌, >>=-eq-ok, ok-injective, ok,
}
use coin_vault.Vault.Blocks.{MerkleBlock}
use mathlib.Core.Path.{subst}
use coin_vault.Wire.Transaction as CoinTx
use coin_vault.Vault.Tx.{
  Tx, Status, status_code, no_status, unsigned, confirmed, conflicting, same_status, signed_status,
  get_hash, to_coin_core, update_status, update_signed, set_blockheader,
}
use coin_vault.Vault.Tx.UpdateStatus.{update_status_steps}
use coin_vault.Vault.Ledger.{has_block, holds_hash, confirm_in}
use coin_vault.Vault.DeleteTx.{Row, spender_at}
use coin_vault.Vault.DeleteTx.Counts.{AllBelow, count_spent, inputs_of}
use coin_vault.Vault.Arrivals.{
  ScriptTable, is_conflict, any_conflict, mark_row, mark_rows, mark_arrived, confirm_arrived,
}

-- Inputs and outputs are the same.
abbrev pub SameEnds : Tx → Tx → Type 0
SameEnds tx after = (after.txins ≡ tx.txins) × (after.txouts ≡ tx.txouts)

pair-SameEnds : (tx : Tx) {p q : Tx × Bool} → p ≡ q → SameEnds tx p.0 → SameEnds tx q.0
pair-SameEnds tx e ends = subst (λ (r : Tx × Bool). SameEnds tx r.0) e ends

-- What a step keeps that changes no end of a transaction.
pub record Kept (rows after : List Row) : Type 0 where
  pub counts : (j l : ℕ) → count_spent j l after ≡ count_spent j l rows
  pub inputs : (j : ℕ) → inputs_of j after ≡ inputs_of j rows
  pub spenders : (j i : ℕ) → spender_at j i after ≡ spender_at j i rows
  pub below : (b : ℕ) → AllBelow b rows → AllBelow b after

cons-Kept :
    (r r' : Row) (rs rs' : List Row)
    → r'.id ≡ r.id
    → SameEnds r.tx r'.tx
    → Kept rs rs'
    → Kept (r ∷ rs) (r' ∷ rs')
unfolding spender_at
cons-Kept r r' rs rs' same ends kept = record {
  counts = λ j l. rw ends.1 (omega (arith, kept.counts j l));
  inputs = λ j. rw (same, ends.0, kept.inputs j) refl;
  spenders = λ j i. rw (same, ends.1, kept.spenders j i) refl;
  below = λ b all. (rw same all.0, kept.below b all.1);
}

pub confirm_in-SameEnds :
    (blocks : List MerkleBlock) (tx : Tx) → SameEnds tx (confirm_in blocks tx).0
unfolding confirm_in set_blockheader
confirm_in-SameEnds [] tx = (refl, refl)
confirm_in-SameEnds (b ∷ bs) tx =
    let ends = confirm_in-SameEnds bs tx in
    elim (Bool-cases (holds_hash b.hashes tx.hash)) [ inl e ↦ rw e ends | inr e ↦ rw e ends ]

module _ (hash160 : Bytes → Bytes) (garbage : ℕ) (sha256_2 : Bytes → Bytes) where
  update_signed-SameEnds :
      (tx : Tx) (given : Status) {after : Tx} {changed : Bool}
      → update_signed sha256_2 tx given ≡ ok (after, changed)
      → SameEnds tx after
  unfolding update_signed
  update_signed-SameEnds tx given returns =
      elim (if_cases (same_status tx.status unsigned) returns) [
        | inl (_, signed) ↦
            let (core, _, result) =
              >>=-eq-ok (to_coin_core tx)
                (λ (core : CoinTx.Transaction).
                  ok (
                    record tx { status = signed_status given; hash = get_hash sha256_2 core },
                    true,
                  ))
                signed in
            pair-SameEnds tx (ok-injective result) (refl, refl)
        | inr (_, rest) ↦
            elim (if_cases
              (not (same_status given no_status)
                && (not (same_status given unsigned) && not (same_status given tx.status)))
              rest) [
                | inl (_, given_status) ↦ pair-SameEnds tx (ok-injective given_status) (refl, refl)
                | inr (_, kept) ↦ pair-SameEnds tx (ok-injective kept) (refl, refl)
              ]
      ]

  pub update_status-SameEnds :
      (tx : Tx) (given : Status) {after : Tx} {changed : Bool}
      → update_status hash160 garbage sha256_2 tx given ≡ ok (after, changed)
      → SameEnds tx after
  update_status-SameEnds tx given returns =
      let (missing, _, branch) = update_status_steps hash160 sha256_2 garbage tx given returns in
      elim branch [
        | inl (_, e, _) ↦ (ap (λ (t : Tx). t.txins) (sym e), ap (λ (t : Tx). t.txouts) (sym e))
        | inr (_, signed) ↦ update_signed-SameEnds tx given signed
      ]

  mark_row_lem :
      (scripts : ScriptTable) (conflicts : List ℕ) (r : Row) {after : Row}
      → mark_row scripts hash160 garbage sha256_2 conflicts r ≡ ok after
      → (after.id ≡ r.id) × SameEnds r.tx after.tx
  unfolding mark_row
  mark_row_lem scripts conflicts r returns =
      elim (if_cases
        (is_conflict r.id conflicts
          && (not (same_status r.tx.status confirmed) && not (same_status r.tx.status conflicting)))
        returns) [
          | inr (_, kept) ↦
              let e = ok-injective kept in
              (
                ap (λ (q : Row). q.id) (sym e),
                subst (λ (q : Row). SameEnds r.tx q.tx) e (refl, refl),
              )
          | inl (_, marked) ↦
              let ((tx, changed), updated, result) =
                >>=-eq-ok (update_status hash160 garbage sha256_2 r.tx conflicting)
                  (λ (p : Tx × Bool). ok (record r { tx = p.0 })) marked in
              let e = ok-injective result in
              (
                ap (λ (q : Row). q.id) (sym e),
                subst (λ (q : Row). SameEnds r.tx q.tx) e
                    (update_status-SameEnds r.tx conflicting updated),
              )
        ]

  pub mark_rows-Kept :
      (scripts : ScriptTable) (conflicts : List ℕ) (rows : List Row) {after : List Row}
      → mark_rows scripts hash160 garbage sha256_2 conflicts rows ≡ ok after
      → Kept rows after
  unfolding mark_rows
  mark_rows-Kept scripts conflicts [] returns = rw (← ok-injective returns) (record {
    counts = λ j l. refl;
    inputs = λ j. refl;
    spenders = λ j i. refl;
    below = λ b all. tt;
  })
  mark_rows-Kept scripts conflicts (r ∷ rs) returns =
      let (r', marked, rest) =
        >>=-eq-ok (mark_row scripts hash160 garbage sha256_2 conflicts r)
          (λ (r' : Row). do
            later ← mark_rows scripts hash160 garbage sha256_2 conflicts rs
            ok (r' ∷ later))
          returns in
      let (rs', later, result) =
        >>=-eq-ok (mark_rows scripts hash160 garbage sha256_2 conflicts rs)
          (λ (rs' : List Row). ok (r' ∷ rs')) rest in
      let (same, ends) = mark_row_lem scripts conflicts r marked in
      subst (λ (after : List Row). Kept (r ∷ rs) after) (ok-injective result)
        (cons-Kept r r' rs rs' same ends (mark_rows-Kept scripts conflicts rs later))

  pub mark_arrived-SameEnds :
      (scripts : ScriptTable) (conflicts : List ℕ) (tx : Tx) {after : Tx}
      → mark_arrived scripts hash160 garbage sha256_2 conflicts tx ≡ ok after
      → SameEnds tx after
  unfolding mark_arrived
  mark_arrived-SameEnds scripts conflicts tx returns =
      elim (if_cases (any_conflict conflicts) returns) [
        | inr (_, kept) ↦ subst (λ (t : Tx). SameEnds tx t) (ok-injective kept) (refl, refl)
        | inl (_, marked) ↦
            let ((t, changed), updated, result) =
              >>=-eq-ok (update_status hash160 garbage sha256_2 tx conflicting)
                (λ (p : Tx × Bool). ok p.0) marked in
            subst (λ (t : Tx). SameEnds tx t) (ok-injective result)
              (update_status-SameEnds tx conflicting updated)
      ]

pub confirm_arrived-SameEnds :
    (blocks : List MerkleBlock) (tx : Tx) → SameEnds tx (confirm_arrived blocks tx)
unfolding confirm_arrived
confirm_arrived-SameEnds blocks tx =
    elim (Bool-cases (leb 4 (status_code tx.status) && not (has_block tx.blockheader))) [
      | inl e ↦ rw e (confirm_in-SameEnds blocks tx)
      | inr e ↦ rw e (refl, refl)
    ]
