-- ===== src/Vault/Scripts/Make.antt =====
-- When the constructor of class SigningScript succeeds.
use coin_vault.Common.{
  Bytes, length, ℕ, suc, ◌^◌, ◌≤◌, ◌<◌, ◌≡◌, refl, inl, inr, false, List, [], ◌∷◌, arith, ◌==◌,
  Bool-cases, ltb-false, Result, ok,
}
use coin_vault.Script.Object.{
  Script, edit, pay_to_multisig_script_hash, multisig_redeem_script, blanks, make, make_multisig,
  txinscript, txoutscript, key_part,
}
use coin_vault.Vault.Scripts.{
  ScriptStatus, SigningScript, AccountBin, insert_key, sort_keys, bytes_less, make_script,
}

length-insert_key : (key : Bytes) (ks : List Bytes) → length (insert_key key ks) ≡ suc (length ks)
unfolding insert_key
length-insert_key key [] = refl
length-insert_key key (k ∷ ks) = elim (Bool-cases (bytes_less k key)) [
  | inl e ↦ rw e (omega (arith, length-insert_key key ks))
  | inr e ↦ rw e refl
]

length-sort_keys : (ks : List Bytes) → length (sort_keys ks) ≡ length ks
unfolding sort_keys
length-sort_keys [] = refl
length-sort_keys (k ∷ ks) = omega (arith, length-insert_key k (sort_keys ks), length-sort_keys ks)

-- A bin whose keychains derive enough keys, and not too many, for each index from `first` up to a
-- limit; the code derives none from 2^31 on.
pub record DerivesKeys (signing_keys : ℕ → Result (List Bytes)) (first limit minsigs : ℕ)
    : Type 0 where
  pub inside : limit < 2 ^ 32
  pub derived :
      (i : ℕ)
      → first ≤ i
      → i < limit
      → (keys : List Bytes) × (signing_keys i ≡ ok keys)
        × (minsigs ≤ length keys)
        × (length keys ≤ 15)
  pub one : 1 ≤ minsigs

module _ (hash160 : Bytes → Bytes) (signing_keys : ℕ → Result (List Bytes)) where
  multisig_scripts :
      (minsigs : ℕ) (keys : List Bytes)
      → 1 ≤ minsigs
      → minsigs ≤ length keys
      → length keys ≤ 15
      → (s : Script) × (txin : Bytes) × (txout : Bytes) × (make hash160 pay_to_multisig_script_hash
            minsigs keys []
          ≡ ok s)
        × (txinscript edit s ≡ ok txin)
        × (txoutscript s ≡ ok txout)
  unfolding make make_multisig txinscript txoutscript key_part
  multisig_scripts minsigs keys one enough few = (
    script,
    _,
    _,
    rw
        (
          made,
          ltb-false 16 (length keys) (omega arith),
          ltb-false (length keys) minsigs enough,
          ltb-false (length keys) 0 (omega arith),
        )
        refl,
    refl,
    refl,
  )
    where
      script : Script
      script = record {
        kind = pay_to_multisig_script_hash;
        minsigs = minsigs;
        pubkeys = keys;
        sigs = blanks (length keys);
        redeem_script = multisig_redeem_script minsigs keys;
        hash = hash160 (multisig_redeem_script minsigs keys);
      }

      made : (minsigs == 0) ≡ false
      made = ground arith

  pub make_script_lem :
      (bin : AccountBin) (index : ℕ) (label : Bytes) (given : ScriptStatus) {first limit : ℕ}
      → DerivesKeys signing_keys first limit bin.minsigs
      → first ≤ index
      → index < limit
      → (s : SigningScript) × (make_script hash160 signing_keys bin index label given ≡ ok s)
        × (s.index ≡ index)
        × (s.status ≡ given)
  unfolding make_script
  make_script_lem bin index label given d low high =
      let (keys, derived, enough, few) = d.derived index low high in
      let (s, txin, txout, made, wrote_in, wrote_out) =
        multisig_scripts bin.minsigs (sort_keys keys) d.one (omega (arith, length-sort_keys keys))
          (omega (arith, length-sort_keys keys)) in
      (
        record {
          index = index;
          label = label;
          status = given;
          txinscript = txin;
          txoutscript = txout;
        },
        rw (derived, made, wrote_in, wrote_out) refl,
        refl,
        refl,
      )
