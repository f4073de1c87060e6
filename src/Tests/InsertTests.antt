-- ===== src/Tests/InsertTests.antt =====
-- Copies of stored transactions that arrive: scripts of a key, and of two signatures out of two.
use coin_vault.Common.{
  Bytes, ℕ, zero, suc, ◌≤◌, ◌≡◌, refl, ◌≢◌, ◌⊎◌, inr, true, false, List, [], ◌∷◌, ◌++◌, ok,
}
use coin_vault.Vault.Tx.{
  Tx, unsigned, sent, propagated, status_code, new, missing_sig_count, update_status,
}
use coin_vault.Vault.Tx.UpdateStatus.{IsConsistent, update_status-IsConsistent}
use coin_vault.Vault.Insert.{insert_updated}
use coin_vault.Vault.Insert.Scripts.{bare, scripts_of}
use coin_vault.Vault.Insert.Laws.{merge_unsigned_lem, replace_unsigned_lem, update_stored_lem}

abbrev toy_hash : Bytes → Bytes
toy_hash bytes = bytes

-- A hash of 32 bytes.
abbrev zeros : ℕ → Bytes
zeros zero = []
zeros (suc n) = 0 ∷ zeros n

abbrev spending : Bytes → Tx
unfolding new
spending script = record new {
  status = unsigned;
  txins =
      record { outhash = zeros 32; outindex = 0; script = script; sequence = 0; txindex = 0 } ∷ [];
}

abbrev redeem : Bytes
redeem = 0x07 ∷ 0x52 ∷ 0x01 ∷ 0xb1 ∷ 0x01 ∷ 0xb2 ∷ 0x52 ∷ 0xae ∷ []

-- The first signature, the second, and both.
abbrev first_half : Tx
unfolding spending
first_half = spending (0x00 ∷ 0x01 ∷ 0xaa ∷ 0x00 ∷ redeem)

abbrev second_half : Tx
unfolding spending
second_half = spending (0x00 ∷ 0x00 ∷ 0x01 ∷ 0xcc ∷ redeem)

abbrev whole : Tx
unfolding spending
whole = spending (0x00 ∷ 0x01 ∷ 0xaa ∷ 0x01 ∷ 0xcc ∷ redeem)

merged : insert_updated toy_hash 0 toy_hash first_half second_half ≡ ok (whole, true)
unfolding insert_updated first_half second_half whole
merged = refl

-- The merged transaction misses no signature, and is still UNSIGNED.
merged_complete : missing_sig_count toy_hash 0 whole ≡ ok 0
unfolding missing_sig_count whole
merged_complete = refl

merge_unsigned_lem_example :
    (record whole { txins = first_half.txins } ≡ first_half)
    × (bare whole.txins ≡ bare first_half.txins)
    × ((true ≡ true) ⊎ (whole ≡ first_half))
unfolding first_half second_half whole
merge_unsigned_lem_example =
    merge_unsigned_lem toy_hash toy_hash 0 first_half second_half whole true refl refl merged

abbrev signed_whole : Tx
unfolding whole
signed_whole = record whole { status = sent }

abbrev stored_whole : Tx
unfolding insert_updated first_half signed_whole
stored_whole = elim (insert_updated toy_hash 0 toy_hash first_half signed_whole) [
  | ok (t, b) ↦ t
  | _ ↦ new
]

replaced : insert_updated toy_hash 0 toy_hash first_half signed_whole ≡ ok (stored_whole, true)
unfolding insert_updated first_half signed_whole stored_whole
replaced = refl

replace_unsigned_lem_example :
    (true ≡ true)
    × IsConsistent toy_hash toy_hash 0 stored_whole
    × ((rest : List Bytes) × (scripts_of signed_whole.txins
          ≡ scripts_of stored_whole.txins ++ rest))
    × (bare stored_whole.txins ≡ bare first_half.txins)
    × (stored_whole.txouts ≡ first_half.txouts)
unfolding first_half signed_whole
replace_unsigned_lem_example =
    replace_unsigned_lem toy_hash toy_hash 0 first_half signed_whole stored_whole true refl
      (λ e. cc) replaced

updated_is : update_status toy_hash 0 toy_hash whole sent ≡ ok (stored_whole, true)
unfolding update_status whole stored_whole
updated_is = refl

stored-IsConsistent : IsConsistent toy_hash toy_hash 0 stored_whole
unfolding first_half signed_whole whole
stored-IsConsistent =
    update_status-IsConsistent toy_hash toy_hash 0 whole sent {changed = true} (inr refl) updated_is

abbrev seen_again : Tx
unfolding stored_whole
seen_again = record stored_whole { status = propagated }

raised : insert_updated toy_hash 0 toy_hash stored_whole seen_again ≡ ok (seen_again, true)
unfolding insert_updated stored_whole seen_again
raised = refl

update_stored_lem_example :
    IsConsistent toy_hash toy_hash 0 seen_again
    × (seen_again.txins ≡ stored_whole.txins)
    × (status_code stored_whole.status ≤ status_code seen_again.status)
    × ((seen_again.status ≢ unsigned) ⊎ ((seen_again ≡ stored_whole) × (true ≡ false)))
update_stored_lem_example =
    update_stored_lem toy_hash toy_hash 0 stored_whole seen_again seen_again true
      stored-IsConsistent (unfold stored_whole in λ e. cc) raised
