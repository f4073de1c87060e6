-- ===== src/Vault/Tx/Lifecycle.antt =====
-- The life of an object of class Tx: it is set once, then its status is updated, its scripts change
-- while it is unsigned, and it enters and leaves blocks.
use coin_vault.Common.{
  Bytes, ℕ, zero, suc, ◌≡◌, refl, ◌≢◌, inl, inr, Bool, none, some, List, [], arith, if◌then◌else◌,
  ltb-true, ok,
}
use coin_vault.Wire.Transaction as CoinTx
use coin_vault.Wire.Transaction.RoundTrip.{IsValid}
use coin_vault.Wire.Transaction.Scripts.{clear_script_sigs}
use coin_vault.Vault.Blocks.{BlockHeader}
use coin_vault.Vault.Inputs.{TxIn}
use coin_vault.Vault.Tx.{
  Tx, Status, no_status, unsigned, unsent, sent, propagated, conflicting, canceled, confirmed,
  same_status, new, from_coin_core, to_coin_core, get_hash, settle, missing_sig_count,
  set_coin_core, update_status, set_blockheader,
}
use coin_vault.Vault.Tx.RoundTrip.{to_coin_core-from_coin_core, set_coin_core_steps}
use coin_vault.Vault.Tx.UpdateStatus.{IsConsistent, update_status-IsConsistent}

-- Leaving a block makes no transaction unsigned.
left_block_signed :
    (s : Status) → s ≢ unsigned → (if same_status s confirmed then propagated else s) ≢ unsigned
left_block_signed no_status was e = cc
left_block_signed unsigned was e = was refl
left_block_signed unsent was e = cc
left_block_signed sent was e = cc
left_block_signed propagated was e = cc
left_block_signed conflicting was e = cc
left_block_signed canceled was e = cc
left_block_signed confirmed was e = cc

module _ (hash160 sha256_2 : Bytes → Bytes) (garbage : ℕ) where
  abbrev Consistent : Tx → Type 0
  Consistent = IsConsistent hash160 sha256_2 garbage

  infix 40 ◌⟶◌
  pub data ◌⟶◌ : Tx → Tx → Type 0 where
    updated :
        {tx after : Tx} (given : Status) (changed : Bool)
        → update_status hash160 garbage sha256_2 tx given ≡ ok (after, changed)
        → tx ⟶ after
    rescripted :
        {tx after : Tx} (inputs : List TxIn) (given : Status) (changed : Bool)
        → tx.status ≡ unsigned
        → update_status hash160 garbage sha256_2 (record tx { txins = inputs }) given
          ≡ ok (after, changed)
        → tx ⟶ after
    placed :
        {tx after : Tx} (header : BlockHeader)
        → tx.status ≢ unsigned
        → set_blockheader (some header) tx ≡ after
        → tx ⟶ after
    displaced : {tx after : Tx} → set_blockheader none tx ≡ after → tx ⟶ after

  pub data HasLife : Tx → Type 0 where
    born :
        {tx : Tx} (core : CoinTx.Transaction) (timestamp : ℕ) (given : Status)
        → IsValid core
        → given ≢ unsigned
        → set_coin_core hash160 garbage sha256_2 new core timestamp given ≡ ok tx
        → HasLife tx
    lives : {tx after : Tx} → HasLife tx → tx ⟶ after → HasLife after

  settle-unsigned :
      (tx : Tx) (core : CoinTx.Transaction) (given : Status) (n : ℕ)
      → settle sha256_2 core given tx (suc n) ≡ record tx {
        status = unsigned;
        unsigned_hash = get_hash sha256_2 (clear_script_sigs core);
      }
  unfolding settle
  settle-unsigned tx core given n = rw (ltb-true 0 (suc n) (omega arith)) refl

  settle-IsConsistent :
      (tx : Tx) (core : CoinTx.Transaction) (given : Status) (missing : ℕ)
      → given ≢ unsigned
      → missing_sig_count hash160 garbage tx ≡ ok missing
      → to_coin_core tx ≡ ok core
      → tx.hash ≡ []
      → Consistent (settle sha256_2 core given tx missing)
  unfolding settle missing_sig_count to_coin_core
  settle-IsConsistent tx core given zero signs counted converted blank = record {
    missing = 0;
    counted = counted;
    unsigned_law = λ more. absurd (omega arith);
    signed_law = λ none_missing. (signs, core, converted, refl);
  }
  settle-IsConsistent tx core given (suc n) signs counted converted blank =
      rw (settle-unsigned tx core given n) (record {
        missing = suc n;
        counted = counted;
        unsigned_law = λ more. (refl, blank);
        signed_law = λ none_missing. absurd (omega arith);
      })

  born-IsConsistent :
      (core : CoinTx.Transaction) (timestamp : ℕ) (given : Status) {tx : Tx}
      → IsValid core
      → given ≢ unsigned
      → set_coin_core hash160 garbage sha256_2 new core timestamp given ≡ ok tx
      → Consistent tx
  unfolding from_coin_core new missing_sig_count to_coin_core
  born-IsConsistent core timestamp given v signs returns =
      let (missing, counted, settled) =
        set_coin_core_steps sha256_2 hash160 garbage new core timestamp given returns in
      rw settled at (
        settle-IsConsistent (record (from_coin_core new core) { timestamp = timestamp }) core given
          missing signs counted (to_coin_core-from_coin_core new core v) refl)

  placed-IsConsistent :
      (tx : Tx) (header : BlockHeader)
      → tx.status ≢ unsigned
      → Consistent tx
      → Consistent (set_blockheader (some header) tx)
  unfolding set_blockheader missing_sig_count to_coin_core
  placed-IsConsistent tx header was c = record {
    missing = c.missing;
    counted = c.counted;
    unsigned_law = λ more. absurd (was (c.unsigned_law more).0);
    signed_law = λ none_missing.
        let (_, core, converted, hash) = c.signed_law none_missing in
        (λ e. cc, core, converted, hash);
  }

  displaced-IsConsistent : (tx : Tx) → Consistent tx → Consistent (set_blockheader none tx)
  unfolding set_blockheader missing_sig_count to_coin_core
  displaced-IsConsistent tx c = record {
    missing = c.missing;
    counted = c.counted;
    unsigned_law = λ more. let (s, h) = c.unsigned_law more in (rw s refl, h);
    signed_law = λ none_missing.
        let (was, core, converted, hash) = c.signed_law none_missing in
        (left_block_signed tx.status was, core, converted, hash);
  }

  -- A transaction that has been set from a valid transaction of the protocol with a status other
  -- than UNSIGNED, whose status has then been updated, whose input scripts have been changed while
  -- it was UNSIGNED and its status updated behind that, and which has entered blocks while it was
  -- not UNSIGNED and left them, is UNSIGNED with an empty hash if it misses signatures, and
  -- otherwise has another status and the hash of its serialized form.
  pub life-IsConsistent : (tx : Tx) → HasLife tx → Consistent tx
  unfolding missing_sig_count
  life-IsConsistent tx (born core timestamp given v signs returns) =
      born-IsConsistent core timestamp given v signs returns
  life-IsConsistent tx (lives {tx = before} life (updated given changed e)) =
      update_status-IsConsistent hash160 sha256_2 garbage before given
        (inl (life-IsConsistent before life)) e
  life-IsConsistent tx (lives {tx = before} life (rescripted inputs given changed was e)) =
      update_status-IsConsistent hash160 sha256_2 garbage (record before { txins = inputs }) given
        (inr was) e
  life-IsConsistent tx (lives {tx = before} life (placed header was e)) =
      rw e at (placed-IsConsistent before header was (life-IsConsistent before life))
  life-IsConsistent tx (lives {tx = before} life (displaced e)) =
      rw e at (displaced-IsConsistent before (life-IsConsistent before life))
