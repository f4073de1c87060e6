-- ===== src/Vault/Tx/UpdateStatus.antt =====
-- `updateStatus` of class Tx: the status and the hash after it.
use coin_vault.Common.{
  Bytes, ℕ, ◌<◌, ◌≡◌, refl, sym, ap, ◌∙◌, ◌≢◌, ◌⊎◌, inl, inr, Bool, true, false, not, ◌&&◌, [],
  arith, ltb, if◌then◌else◌, Bool-cases, if_cases, Result, >>=-eq-ok, ok-injective, ok,
}
use coin_vault.Wire.Transaction as CoinTx
use coin_vault.Vault.Tx.{
  Tx, Status, no_status, unsigned, unsent, sent, propagated, conflicting, canceled, confirmed,
  same_status, signed_status, to_coin_core, get_hash, update_signed, missing_sig_count,
  update_status,
}

pub unsigned-true : (s : Status) → same_status s unsigned ≡ true → s ≡ unsigned
unsigned-true unsigned e = refl
unsigned-true no_status e = cc
unsigned-true unsent e = cc
unsigned-true sent e = cc
unsigned-true propagated e = cc
unsigned-true conflicting e = cc
unsigned-true canceled e = cc
unsigned-true confirmed e = cc

pub unsigned-false : (s : Status) → same_status s unsigned ≡ false → s ≢ unsigned
unsigned-false s e h = cc

signed_status_signed : (s : Status) → signed_status s ≢ unsigned
unfolding signed_status
signed_status_signed unsigned e = cc
signed_status_signed no_status e = cc
signed_status_signed unsent e = cc
signed_status_signed sent e = cc
signed_status_signed propagated e = cc
signed_status_signed conflicting e = cc
signed_status_signed canceled e = cc
signed_status_signed confirmed e = cc

module _ (hash160 sha256_2 : Bytes → Bytes) (garbage : ℕ) where
  -- A transaction that misses signatures is UNSIGNED and has no hash; any other has a status other
  -- than UNSIGNED, and holds the hash of its serialized form.
  pub record IsConsistent (tx : Tx) : Type 0 where
    pub missing : ℕ
    pub counted : missing_sig_count hash160 garbage tx ≡ ok missing
    pub unsigned_law : 0 < missing → (tx.status ≡ unsigned) × (tx.hash ≡ [])
    pub signed_law :
        missing ≡ 0
        → (tx.status ≢ unsigned)
          × (core : CoinTx.Transaction) × (to_coin_core tx ≡ ok core)
          × (tx.hash ≡ get_hash sha256_2 core)

  became_signed :
      (tx : Tx) (given : Status) {after : Tx} {changed : Bool}
      → tx.status ≡ unsigned
      → update_signed sha256_2 tx given ≡ ok (after, changed)
      → (core : CoinTx.Transaction) × (to_coin_core tx ≡ ok core)
        × (record tx { status = signed_status given; hash = get_hash sha256_2 core } ≡ after)
        × (changed ≡ true)
  unfolding update_signed
  became_signed tx given was returns = elim (if_cases (same_status tx.status unsigned) returns) [
    | inl (_, branch) ↦
        let (core, converted, result) = >>=-eq-ok _ _ branch in
        (
          core,
          converted,
          ap (λ p. p.0) (ok-injective result),
          sym (ap (λ p. p.1) (ok-injective result)),
        )
    | inr (other, _) ↦ absurd (unsigned-false tx.status other was)
  ]

  pub stayed_signed :
      (tx : Tx) (given : Status) {after : Tx} {changed : Bool}
      → tx.status ≢ unsigned
      → update_signed sha256_2 tx given ≡ ok (after, changed)
      → (s : Status) × (s ≢ unsigned)
        × (record tx { status = s } ≡ after)
        × (((changed ≡ true) × (s ≡ given)) ⊎ ((changed ≡ false) × (s ≡ tx.status)))
  unfolding update_signed
  stayed_signed tx given was returns = elim (if_cases (same_status tx.status unsigned) returns) [
    | inl (same, _) ↦ absurd (was (unsigned-true tx.status same))
    | inr (_, branch) ↦ elim (if_cases (accepted) branch) [
      | inl (accepts, taken) ↦
          let e = ok-injective taken in
          (given, allowed accepts, ap (λ p. p.0) e, inl (sym (ap (λ p. p.1) e), refl))
      | inr (_, kept) ↦
          let e = ok-injective kept in
          (tx.status, was, ap (λ p. p.0) e, inr (sym (ap (λ p. p.1) e), refl))
    ]
  ]
    where
      accepted : Bool
      accepted =
          not (same_status given no_status)
          && (not (same_status given unsigned) && not (same_status given tx.status))

      allowed : accepted ≡ true → given ≢ unsigned
      allowed accepts e = cc

  settled_signed :
      (tx after : Tx) (given : Status) (changed : Bool)
      → missing_sig_count hash160 garbage tx ≡ ok 0
      → IsConsistent tx ⊎ (tx.status ≡ unsigned)
      → update_signed sha256_2 tx given ≡ ok (after, changed)
      → IsConsistent after
  unfolding missing_sig_count to_coin_core
  settled_signed tx after given changed counted before returns =
      elim (Bool-cases (same_status tx.status unsigned)) [
        | inl same ↦
            let (core, converted, e, _) =
              became_signed tx given (unsigned-true tx.status same) returns in
            rw e at (
              signed_now (record tx { status = signed_status given; hash = get_hash sha256_2 core })
                core counted (signed_status_signed given) converted refl)
        | inr other ↦
            let was = unsigned-false tx.status other in
            let (s, s_signed, e, _) = stayed_signed tx given was returns in
            let (core, converted, hash) = kept was before in
            rw e at (signed_now (record tx { status = s }) core counted s_signed converted hash)
      ]
    where
      signed_now :
          (t : Tx) (core : CoinTx.Transaction)
          → missing_sig_count hash160 garbage t ≡ ok 0
          → t.status ≢ unsigned
          → to_coin_core t ≡ ok core
          → t.hash ≡ get_hash sha256_2 core
          → IsConsistent t
      signed_now t core c s f h = record {
        missing = 0;
        counted = c;
        unsigned_law = λ more. absurd (omega arith);
        signed_law = λ none_missing. (s, core, f, h);
      }

      kept :
          tx.status ≢ unsigned
          → IsConsistent tx ⊎ (tx.status ≡ unsigned)
          → (core : CoinTx.Transaction) × (to_coin_core tx ≡ ok core)
            × (tx.hash ≡ get_hash sha256_2 core)
      kept was (inr same) = absurd (was same)
      kept was (inl c) =
          let (_, core, converted, hash) = c.signed_law (ok-injective (sym c.counted ∙ counted)) in
          (core, converted, hash)

  abbrev without_hash : Tx → Tx
  without_hash tx = record tx { status = unsigned; hash = [] }

  pub update_status_steps :
      (tx : Tx) (given : Status) {after : Tx} {changed : Bool}
      → update_status hash160 garbage sha256_2 tx given ≡ ok (after, changed)
      → (missing : ℕ) × (missing_sig_count hash160 garbage tx ≡ ok missing)
        × (((0 < missing) × (without_hash tx ≡ after) × (changed ≡ true))
            ⊎ ((missing ≡ 0) × (update_signed sha256_2 tx given ≡ ok (after, changed))))
  unfolding update_status
  update_status_steps tx given {after} {changed} returns =
      let (missing, counted, branch) =
        >>=-eq-ok (missing_sig_count hash160 garbage tx)
          (λ (n : ℕ).
            if ltb 0 n then ok (without_hash tx, true) else update_signed sha256_2 tx given)
          returns in
      (missing, counted, split missing (if_cases (ltb 0 missing) branch))
    where
      split :
          (missing : ℕ)
          → ((ltb 0 missing ≡ true)
              × (◌≡◌ {A = Result (Tx × Bool)} (ok (without_hash tx, true)) (ok (after, changed))))
            ⊎ ((ltb 0 missing ≡ false) × (update_signed sha256_2 tx given ≡ ok (after, changed)))
          → ((0 < missing) × (without_hash tx ≡ after) × (changed ≡ true))
            ⊎ ((missing ≡ 0) × (update_signed sha256_2 tx given ≡ ok (after, changed)))
      split missing (inl (more, e)) =
          let same = ok-injective e in
          inl (ground arith, ap (λ p. p.0) same, sym (ap (λ p. p.1) same))
      split missing (inr (none_missing, e)) = inr (ground arith, e)

  -- A transaction is consistent after updateStatus when it was, or was UNSIGNED.
  pub update_status-IsConsistent :
      (tx : Tx) (given : Status) {after : Tx} {changed : Bool}
      → IsConsistent tx ⊎ (tx.status ≡ unsigned)
      → update_status hash160 garbage sha256_2 tx given ≡ ok (after, changed)
      → IsConsistent after
  unfolding missing_sig_count
  update_status-IsConsistent tx given {after} {changed} before returns =
      let (missing, counted, branch) = update_status_steps tx given returns in
      elim branch [
        | inl (more, e, _) ↦ rw e at (incomplete missing more counted)
        | inr (none_missing, signed) ↦
            settled_signed tx after given changed (rw none_missing at counted) before signed
      ]
    where
      incomplete :
          (missing : ℕ)
          → 0 < missing
          → missing_sig_count hash160 garbage tx ≡ ok missing
          → IsConsistent (without_hash tx)
      incomplete missing more c = record {
        missing = missing;
        counted = c;
        unsigned_law = λ h. (refl, refl);
        signed_law = λ none_missing. absurd (omega arith);
      }
