-- ===== src/Vault/Insert/Laws.antt =====
-- What becomes of the stored transaction when another copy of it arrives.
use coin_vault.Common.{
  Bytes, ℕ, ◌≤◌, ◌<◌, ◌≡◌, refl, sym, ap, ◌∙◌, ◌≢◌, ◌⊎◌, inl, inr, Bool, true, false, not, ◌&&◌,
  List, ◌++◌, arith, ltb, Bool-cases, if_cases, and_true, Result, ◌>>=◌, >>=-eq-ok, ok-injective,
  fault, stuck, err, ok,
}
use mathlib.Core.Path.{subst}
use coin_vault.Vault.Inputs.{TxIn}
use coin_vault.Vault.Insert.Scripts.{scripts_of, bare, copy_scripts_lem, merge_inputs_lem}
use coin_vault.Vault.Tx.{Tx, Status, unsigned, status_code, same_status, update_status}
use coin_vault.Vault.Tx.UpdateStatus.{
  IsConsistent, unsigned-true, unsigned-false, update_status-IsConsistent, update_status_steps,
  stayed_signed,
}
use coin_vault.Vault.Arrivals.Links.{update_status-SameEnds}
use coin_vault.Vault.Insert.{
  copy_scripts, merge_inputs, merge_unsigned, replace_unsigned, update_stored, insert_updated,
}

not-true : (b : Bool) → not b ≡ true → b ≡ false
not-true true e = cc
not-true false e = refl

not-false : (b : Bool) → not b ≡ false → b ≡ true
not-false true e = refl
not-false false e = cc

-- What is returned after `updateStatus` is the stored transaction, whatever `updateStatus` returned.
abbrev stored_back : Tx × Bool → Result (Tx × Bool)
stored_back p = ok (p.0, true)

-- The flag that stands in place of what `updateStatus` returned.
flagged :
    (call : Result (Tx × Bool)) {after : Tx} {returned : Bool}
    → (call >>= stored_back) ≡ ok (after, returned)
    → (changed : Bool) × (call ≡ ok (after, changed)) × (returned ≡ true)
flagged fault e = cc
flagged stuck e = cc
flagged (err thrown) e = cc
flagged (ok (tx, changed)) e =
    let same = ok-injective e in
    (changed, ap (λ (t : Tx). ok (t, changed)) (ap (λ p. p.0) same), sym (ap (λ p. p.1) same))

module _ (hash160 sha256_2 : Bytes → Bytes) (garbage : ℕ) where
  -- When an UNSIGNED copy of a stored UNSIGNED transaction arrives and the call returns, the
  -- stored transaction has changed in nothing but the scripts of its inputs, so it stays UNSIGNED
  -- with the hash that it had, also when no signature is missing any more; and unless it is
  -- returned, it has not changed at all.
  pub merge_unsigned_lem :
      (stored tx after : Tx) (returned : Bool)
      → stored.status ≡ unsigned
      → tx.status ≡ unsigned
      → insert_updated hash160 garbage sha256_2 stored tx ≡ ok (after, returned)
      → (record after { txins = stored.txins } ≡ stored)
        × (bare after.txins ≡ bare stored.txins)
        × ((returned ≡ true) ⊎ (after ≡ stored))
  unfolding insert_updated merge_unsigned
  merge_unsigned_lem stored tx after returned s t returns =
      elim (if_cases (same_status stored.status unsigned) returns) [
        | inr (other, _) ↦ absurd (unsigned-false stored.status other s)
        | inl (_, inner) ↦ elim (if_cases (not (same_status tx.status unsigned)) inner) [
          | inl (other, _) ↦ absurd (unsigned-false tx.status (not-true _ other) t)
          | inr (_, merged) ↦
              let ((inputs, updated), e, result) =
                >>=-eq-ok (merge_inputs hash160 garbage stored.txins tx.txins)
                  (λ (q : List TxIn × Bool). ok (record stored { txins = q.0 }, q.1)) merged in
              let (same, unchanged) =
                merge_inputs_lem hash160 garbage stored.txins tx.txins (inputs, updated) e in
              subst
                (λ (q : Tx × Bool).
                  (record q.0 { txins = stored.txins } ≡ stored)
                  × (bare q.0.txins ≡ bare stored.txins)
                  × ((q.1 ≡ true) ⊎ (q.0 ≡ stored)))
                (ok-injective result)
                (
                  refl,
                  same,
                  elim (Bool-cases updated) [
                    | inl new ↦ inl new
                    | inr kept ↦
                        inr (ap (λ (ts : List TxIn). record stored { txins = ts }) (unchanged kept))
                  ],
                )
        ]
      ]

  -- When a copy that is not UNSIGNED arrives of a stored transaction that is, and the call
  -- returns, the stored one is returned: the scripts of its inputs are those of the first inputs
  -- of the copy, in their order, and nothing else of its inputs and outputs has changed; it is
  -- UNSIGNED without a hash if it misses signatures with these scripts, and otherwise has another
  -- status and the hash of its serialized form.
  pub replace_unsigned_lem :
      (stored tx after : Tx) (returned : Bool)
      → stored.status ≡ unsigned
      → tx.status ≢ unsigned
      → insert_updated hash160 garbage sha256_2 stored tx ≡ ok (after, returned)
      → (returned ≡ true)
        × IsConsistent hash160 sha256_2 garbage after
        × ((rest : List Bytes) × (scripts_of tx.txins ≡ scripts_of after.txins ++ rest))
        × (bare after.txins ≡ bare stored.txins)
        × (after.txouts ≡ stored.txouts)
  unfolding insert_updated replace_unsigned
  replace_unsigned_lem stored tx after returned s t returns =
      elim (if_cases (same_status stored.status unsigned) returns) [
        | inr (other, _) ↦ absurd (unsigned-false stored.status other s)
        | inl (_, inner) ↦ elim (if_cases (not (same_status tx.status unsigned)) inner) [
          | inr (same, _) ↦ absurd (t (unsigned-true tx.status (not-false _ same)))
          | inl (_, replaced) ↦
              let (inputs, copied, rest) =
                >>=-eq-ok (copy_scripts stored.txins tx.txins)
                  (λ (inputs : List TxIn).
                    update_status hash160 garbage sha256_2 (record stored { txins = inputs })
                      tx.status
                    >>= stored_back)
                  replaced in
              let (changed, updated, flag) = flagged _ rest in
              let (ins, outs) =
                update_status-SameEnds hash160 garbage sha256_2 (record stored { txins = inputs })
                  tx.status updated in
              let (behind, scripts, same) = copy_scripts_lem stored.txins tx.txins copied in
              (
                flag,
                update_status-IsConsistent hash160 sha256_2 garbage
                    (record stored { txins = inputs }) tx.status (inr s) updated,
                (behind, scripts ∙ ap (λ (ts : List TxIn). scripts_of ts ++ behind) (sym ins)),
                ap bare ins ∙ same,
                outs,
              )
        ]
      ]

  signed_update :
      (stored after : Tx) (given : Status) (changed : Bool)
      → IsConsistent hash160 sha256_2 garbage stored
      → stored.status ≢ unsigned
      → status_code stored.status < status_code given
      → update_status hash160 garbage sha256_2 stored given ≡ ok (after, changed)
      → (after.txins ≡ stored.txins) × (status_code stored.status ≤ status_code after.status)
  signed_update stored after given changed c signs above returns =
      let (missing, counted, branch) =
        update_status_steps hash160 sha256_2 garbage stored given returns in
      elim branch [
        | inl (more, _, _) ↦
            let same : missing ≡ c.missing = ok-injective (sym counted ∙ c.counted) in
            absurd (signs (c.unsigned_law (omega (arith, more, same))).0)
        | inr (_, updated) ↦
            let (s, _, e, which) =
              stayed_signed hash160 sha256_2 garbage stored given signs updated in
            let same : status_code s ≡ status_code after.status =
              ap (λ (x : Tx). status_code x.status) e in
            (
              sym (ap (λ (x : Tx). x.txins) e),
              elim which [
                | inl (_, new) ↦ omega (arith, same, ap status_code new)
                | inr (_, old) ↦ omega (arith, same, ap status_code old)
              ],
            )
      ]

  -- When a copy of a stored transaction that is not UNSIGNED arrives, and the stored one is
  -- UNSIGNED without a hash exactly if it misses signatures and holds its hash otherwise, then so
  -- is the one stored afterwards; its inputs stay as they are, the value of its status does not
  -- fall, and if the copy is UNSIGNED nothing changes and a null pointer is returned.
  pub update_stored_lem :
      (stored tx after : Tx) (returned : Bool)
      → IsConsistent hash160 sha256_2 garbage stored
      → stored.status ≢ unsigned
      → insert_updated hash160 garbage sha256_2 stored tx ≡ ok (after, returned)
      → IsConsistent hash160 sha256_2 garbage after
        × (after.txins ≡ stored.txins)
        × (status_code stored.status ≤ status_code after.status)
        × ((tx.status ≢ unsigned) ⊎ ((after ≡ stored) × (returned ≡ false)))
  unfolding insert_updated update_stored
  update_stored_lem stored tx after returned c signs returns =
      elim (if_cases (same_status stored.status unsigned) returns) [
        | inl (same, _) ↦ absurd (signs (unsigned-true stored.status same))
        | inr (_, inner) ↦ elim (if_cases (risen tx.status) inner) [
          | inr (_, kept) ↦
              let same = ok-injective kept in
              let stays : stored ≡ after = ap (λ p. p.0) same in
              (
                rw stays at c,
                sym (ap (λ (x : Tx). x.txins) stays),
                omega (arith, ap (λ (x : Tx). status_code x.status) stays),
                inr (sym stays, sym (ap (λ p. p.1) same)),
              )
          | inl (up, taken) ↦
              let (signed, above) = and_true (not (same_status tx.status unsigned)) _ up in
              let (changed, updated, flag) = flagged _ taken in
              let (inputs, rank) =
                signed_update stored after tx.status changed c signs (ground arith) updated in
              (
                update_status-IsConsistent hash160 sha256_2 garbage stored tx.status (inl c)
                    updated,
                inputs,
                rank,
                inl (unsigned-false tx.status (not-true _ signed)),
              )
        ]
      ]
    where
      risen : Status → Bool
      risen given =
          not (same_status given unsigned) && ltb (status_code stored.status) (status_code given)
