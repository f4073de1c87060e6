-- ===== src/Script/Object/Signatures.antt =====
-- The signatures of class Script: sigsneeded, missingsigs, addSig, clearSigs and mergesigs.
use coin_vault.Common.{
  Bytes, length, u32, at, bytes_eq, ℕ, ◌+◌, ◌-◌, ◌*◌, ◌^◌, Bool, true, false, not, ◌&&◌, List, [],
  ◌∷◌, ltb, ◌==◌, if◌then◌else◌, Result, ◌>>=◌, ◌>>◌, throw_if, different_type, different_minimum,
  different_keys, different_sig_count, ok,
}
use coin_vault.Script.Object.{
  Script, Kind, unknown, pay_to_pubkey, pay_to_pubkey_hash, pay_to_multisig_script_hash, is_empty,
  blanks,
}
pub mod Laws
pub mod Added

-- `==` on vectors of keys.
unfoldable pub keys_eq : List Bytes → List Bytes → Bool
unfolding bytes_eq
keys_eq [] [] = true
keys_eq [] (y ∷ ys) = false
keys_eq (x ∷ xs) [] = false
keys_eq (x ∷ xs) (y ∷ ys) = bytes_eq x y && keys_eq xs ys

abbrev pub kind_code : Kind → ℕ
kind_code unknown = 0
kind_code pay_to_pubkey = 1
kind_code pay_to_pubkey_hash = 2
kind_code pay_to_multisig_script_hash = 3

-- The loop of `sigsneeded`, which stops at 0; the counter is an `unsigned int`.
unfoldable pub count_down : ℕ → List Bytes → ℕ
count_down needed [] = needed
count_down needed (sig ∷ sigs) =
    let left = if is_empty sig then needed else u32 (needed + (2 ^ 32 - 1)) in
    let more = count_down left sigs in if left == 0 then left else more

unfoldable pub sigs_needed : Script → ℕ
unfolding count_down
sigs_needed s = count_down s.minsigs s.sigs

-- The loop of `missingsigs`.
unfoldable pub collect_missing : ℕ → List Bytes → ℕ → ℕ → List Bytes → Result (List Bytes)
unfolding at
collect_missing minsigs pubkeys i nsigs [] = ok []
collect_missing minsigs pubkeys i nsigs ([] ∷ sigs) = do
  key ← at pubkeys i
  missing ← collect_missing minsigs pubkeys (i + 1) nsigs sigs
  ok (key ∷ missing)
collect_missing minsigs pubkeys i nsigs ((b ∷ bs) ∷ sigs) =
    let more = collect_missing minsigs pubkeys (i + 1) (nsigs + 1) sigs in
    if ltb minsigs (nsigs + 1) then ok [] else more

unfoldable pub missing_sigs : Script → Result (List Bytes)
unfolding collect_missing
missing_sigs s = collect_missing s.minsigs s.pubkeys 0 0 s.sigs

-- The loop of `addSig`: the signatures after it, and whether one was added.
unfoldable pub insert_sig :
    ℕ → List Bytes → Bytes → Bytes → ℕ → ℕ → List Bytes → Result (List Bytes × Bool)
unfolding at bytes_eq
insert_sig minsigs pubkeys pubkey sig i nsigs [] = ok ([], false)
insert_sig minsigs pubkeys pubkey sig i nsigs ([] ∷ sigs) = do
  key ← at pubkeys i
  if bytes_eq key pubkey then ok (sig ∷ sigs, true) else (do
    (later, added) ← insert_sig minsigs pubkeys pubkey sig (i + 1) nsigs sigs
    ok ([] ∷ later, added))
insert_sig minsigs pubkeys pubkey sig i nsigs ((b ∷ bs) ∷ sigs) =
    if ltb minsigs (nsigs + 1) then ok ((b ∷ bs) ∷ sigs, false) else (do
      (later, added) ← insert_sig minsigs pubkeys pubkey sig (i + 1) (nsigs + 1) sigs
      ok ((b ∷ bs) ∷ later, added))

unfoldable pub add_sig : Script → Bytes → Bytes → Result (Script × Bool)
unfolding insert_sig
add_sig s pubkey sig = do
  (sigs, added) ← insert_sig s.minsigs s.pubkeys pubkey sig 0 0 s.sigs
  ok (record s { sigs = sigs }, added)

unfoldable pub clear_sigs : Script → Script
unfolding blanks
clear_sigs s = record s { sigs = blanks (length s.pubkeys) }

-- The loop of `mergesigs`, over lists of one length.
unfoldable pub merge_sigs : List Bytes → List Bytes → List Bytes × ℕ
merge_sigs [] others = ([], 0)
merge_sigs (sig ∷ sigs) [] = (sig ∷ sigs, 0)
merge_sigs (sig ∷ sigs) (other ∷ others) =
    let (merged, added) = merge_sigs sigs others in
    if is_empty sig && not (is_empty other)
    then (other ∷ merged, added + 1)
    else (sig ∷ merged, added)

unfoldable pub mergesigs : Script → Script → Result (Script × ℕ)
unfolding keys_eq merge_sigs
mergesigs s other = do
  throw_if (not (kind_code s.kind == kind_code other.kind)) different_type
  throw_if (not (s.minsigs == other.minsigs)) different_minimum
  throw_if (not (keys_eq s.pubkeys other.pubkeys)) different_keys
  throw_if (not (length s.sigs == length other.sigs)) different_sig_count
  let (sigs, added) = merge_sigs s.sigs other.sigs
  ok (record s { sigs = sigs }, added)
