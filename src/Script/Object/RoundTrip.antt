-- ===== src/Script/Object/RoundTrip.antt =====
-- Reading back what `txinscript` of class Script writes for editing.
use coin_vault.Common.{
  Bytes, length, length-append, drop_zero, drop, at, ℕ, suc, ◌+◌, ◌-◌, ◌*◌, ◌%◌, ◌^◌, ◌≤◌, ◌<◌, ◌≡◌,
  refl, ap, List, [], ◌∷◌, ◌++◌, append_assoc, append-nil, arith, ltb-false, ok,
}
use coin_vault.Script.PushData.{op_push_data, length-op_push_data, op_push_data_short}
use coin_vault.Script.Object.{
  Script, pay_to_multisig_script_hash, edit, push_objects, push_sigs, multisig_redeem_script,
  make_multisig, make, txinscript, signature_part, key_part, blanks,
}
use coin_vault.Script.Object.Parse.{
  parse_objects, read_keys, from_redeem_script, from_objects, parse, but_last, last_of,
}
use coin_vault.Script.Object.Parse.Loops.{
  AllKeys, parse_objects-push_objects, read_keys-push_objects,
}

length-push_objects_keys :
    (keys : List Bytes)
    → AllKeys keys
    → (length keys ≤ length (push_objects keys)) × (length (push_objects keys) ≤ 76 * length keys)
unfolding push_objects
length-push_objects_keys [] a = (omega arith, omega arith)
length-push_objects_keys (key ∷ keys) a =
    let (lo, hi) = length-push_objects_keys keys a.1 in
    let parts = length-append key (push_objects keys) in
    rw (op_push_data_short (length key) a.0) (omega arith, omega arith)

abbrev pub multisig : (Bytes → Bytes) → ℕ → List Bytes → List Bytes → Script
multisig hash160 minsigs pubkeys sigs = record {
  kind = pay_to_multisig_script_hash;
  minsigs = minsigs;
  pubkeys = pubkeys;
  sigs = sigs;
  redeem_script = multisig_redeem_script minsigs pubkeys;
  hash = hash160 (multisig_redeem_script minsigs pubkeys);
}

-- The redeem script of valid parameters is taken apart again.
module _ (hash160 : Bytes → Bytes) (garbage minsigs : ℕ) (pubkeys : List Bytes)
    (keys : AllKeys pubkeys) (one : 1 ≤ minsigs) (enough : minsigs ≤ length pubkeys)
    (few : length pubkeys ≤ 16) where
  abbrev redeem : Bytes
  redeem = multisig_redeem_script minsigs pubkeys

  length-redeem : (3 + length pubkeys ≤ length redeem) × (length redeem ≤ 1219)
  unfolding multisig_redeem_script
  length-redeem =
      let tail : Bytes = (length pubkeys + 0x50) % 256 ∷ 0xae ∷ [] in
      let parts = length-append (push_objects pubkeys) tail in
      let bounds = length-push_objects_keys pubkeys keys in (omega arith, omega arith)

  redeem_keys : read_keys (length redeem) redeem (minsigs + 0x50) 0x50 1 ≡ ok pubkeys
  redeem_keys =
      let small : length redeem < 2 ^ 32 = omega (arith, length-redeem) in
      let count : (length pubkeys + 0x50) % 256 ≡ length pubkeys + 0x50 = omega arith in
      read_keys-push_objects pubkeys (length redeem) (minsigs + 0x50) 0x50 (length pubkeys + 0x50) 1
        redeem (omega (arith, length-redeem)) small keys (omega arith) (omega arith) (omega arith)
        (omega arith) (unfold multisig_redeem_script drop in rw count refl)

  from_redeem_script-multisig :
      (sigs : List Bytes)
      → from_redeem_script hash160 garbage sigs redeem ≡ ok (multisig hash160 minsigs pubkeys sigs)
  from_redeem_script-multisig sigs =
      let low : (minsigs + 0x50) % 256 ≡ minsigs + 0x50 = omega arith in
      let back : minsigs + 0x50 - 0x50 ≡ minsigs = omega arith in
      let head : at redeem 0 ≡ ok (minsigs + 0x50) =
        unfold multisig_redeem_script at in ap ok low in
      unfold from_redeem_script in
      rw
        (
          ltb-false (length redeem) 3 (omega (arith, length-redeem)),
          head,
          ltb-false (minsigs + 0x50) 0x51 (omega arith),
          ltb-false 0x60 (minsigs + 0x50) (omega arith),
          redeem_keys,
          back,
        )
        refl

but_last-snoc : (x r : Bytes) (xs : List Bytes) → but_last x (xs ++ (r ∷ [])) ≡ x ∷ xs
but_last-snoc x r [] = refl
but_last-snoc x r (y ∷ ys) = ap (λ t. x ∷ t) (but_last-snoc y r ys)

last_of-snoc : (x r : Bytes) (xs : List Bytes) → last_of x (xs ++ (r ∷ [])) ≡ r
last_of-snoc x r [] = refl
last_of-snoc x r (y ∷ ys) = last_of-snoc y r ys

-- An empty object, a signature at least, and the redeem script.
from_objects-snoc :
    (hash160 : Bytes → Bytes) (garbage : ℕ) (sig r : Bytes) (sigs : List Bytes)
    → from_objects hash160 garbage ([] ∷ sig ∷ (sigs ++ (r ∷ [])))
      ≡ from_redeem_script hash160 garbage (sig ∷ sigs) r
unfolding from_objects
from_objects-snoc hash160 garbage sig r [] = refl
from_objects-snoc hash160 garbage sig r (x ∷ xs) =
    rw (but_last-snoc x r xs, last_of-snoc x r xs) refl

push_objects-append :
    (xs ys : List Bytes) → push_objects (xs ++ ys) ≡ push_objects xs ++ push_objects ys
unfolding push_objects
push_objects-append [] ys = refl
push_objects-append (x ∷ xs) ys = rw (push_objects-append xs ys) (simp append_assoc)

push_sigs-edit : (sigs : List Bytes) → push_sigs edit sigs ≡ push_objects sigs
unfolding push_sigs push_objects
push_sigs-edit [] = refl
push_sigs-edit (sig ∷ sigs) = rw (push_sigs-edit sigs) refl

length-push_objects : (xs : List Bytes) → length xs ≤ length (push_objects xs)
unfolding push_objects
length-push_objects [] = omega arith
length-push_objects (x ∷ xs) = omega (
  arith,
  length-append (op_push_data (length x)) (x ++ push_objects xs),
  length-append x (push_objects xs),
  length-op_push_data (length x),
  length-push_objects xs,
)

-- What `txinscript` writes for editing is an empty object, the signatures and the redeem script.
txinscript-edit :
    (hash160 : Bytes → Bytes) (minsigs : ℕ) (pubkeys sigs : List Bytes)
    → txinscript edit (multisig hash160 minsigs pubkeys sigs)
      ≡ ok (push_objects ([] ∷ (sigs ++ (multisig_redeem_script minsigs pubkeys ∷ []))))
unfolding txinscript signature_part key_part push_objects
txinscript-edit hash160 minsigs pubkeys sigs =
    rw (push_sigs-edit sigs, push_objects-append sigs (r ∷ []), append-nil r)
      (unfold op_push_data in refl)
  where
    r : Bytes
    r = multisig_redeem_script minsigs pubkeys

-- A multisignature script with a signature slot at least is read back from its input script.
multisig_round_trip :
    (hash160 : Bytes → Bytes) (garbage minsigs : ℕ) (pubkeys : List Bytes) (sig : Bytes)
    (sigs : List Bytes) (bytes : Bytes)
    → AllKeys pubkeys
    → 1 ≤ minsigs
    → minsigs ≤ length pubkeys
    → length pubkeys ≤ 16
    → txinscript edit (multisig hash160 minsigs pubkeys (sig ∷ sigs)) ≡ ok bytes
    → length bytes < 2 ^ 32
    → parse hash160 garbage bytes ≡ ok (multisig hash160 minsigs pubkeys (sig ∷ sigs))
unfolding parse
multisig_round_trip hash160 garbage minsigs pubkeys sig sigs bytes keys one enough few written
      small =
    rw
      (
        read,
        from_objects-snoc hash160 garbage sig r sigs,
        from_redeem_script-multisig hash160 garbage minsigs pubkeys keys one enough few
            (sig ∷ sigs),
      )
      refl
  where
    r : Bytes
    r = multisig_redeem_script minsigs pubkeys

    objects : List Bytes
    objects = [] ∷ sig ∷ (sigs ++ (r ∷ []))

    same : push_objects objects ≡ bytes
    same = cc (txinscript-edit hash160 minsigs pubkeys (sig ∷ sigs))

    read : parse_objects (suc (length bytes)) bytes 0 ≡ ok objects
    read =
        parse_objects-push_objects objects (suc (length bytes)) 0 bytes
          (omega (arith, length-push_objects objects, ap length same)) small
          (rw same (drop_zero bytes))

-- What a successful construction tells of its parameters.
make_multisig_bounds :
    (hash160 : Bytes → Bytes) (minsigs : ℕ) (pubkeys sigs : List Bytes) {s : Script}
    → make_multisig hash160 minsigs pubkeys sigs ≡ ok s
    → (1 ≤ minsigs) × (minsigs ≤ length pubkeys) × (length pubkeys ≤ 16)
unfolding make_multisig
make_multisig_bounds hash160 minsigs pubkeys sigs made = (ground arith, ground arith, ground arith)

make_multisig_form :
    (hash160 : Bytes → Bytes) (minsigs : ℕ) (pubkeys sigs : List Bytes) (s : Script)
    → make_multisig hash160 minsigs pubkeys sigs ≡ ok s
    → (sig : Bytes) × (tail : List Bytes) × (multisig hash160 minsigs pubkeys (sig ∷ tail) ≡ s)
unfolding make_multisig blanks
make_multisig_form hash160 minsigs [] [] s made = absurd (ground arith)
make_multisig_form hash160 minsigs (key ∷ keys) [] s made = ([], blanks (length keys), ground arith)
make_multisig_form hash160 minsigs pubkeys (sig ∷ tail) s made = (sig, tail, ground arith)

-- When the constructor of class Script accepts a multisignature policy (minimum, keys of at most
-- 75 bytes, signatures or none) and gives a script whose input script for editing has less than
-- 2^32 bytes, then the constructor that reads input scripts gives the same script back from it:
-- kind, minimum, keys, signatures and placeholders, redeem script and hash, for any hash function.
pub parse-txinscript :
    (hash160 : Bytes → Bytes) (garbage minsigs : ℕ) (pubkeys sigs : List Bytes) (s : Script)
    (bytes : Bytes)
    → make hash160 pay_to_multisig_script_hash minsigs pubkeys sigs ≡ ok s
    → AllKeys pubkeys
    → txinscript edit s ≡ ok bytes
    → length bytes < 2 ^ 32
    → parse hash160 garbage bytes ≡ ok s
unfolding make
parse-txinscript hash160 garbage minsigs pubkeys sigs s bytes made keys written small =
    let (one, enough, few) = make_multisig_bounds hash160 minsigs pubkeys sigs made in
    let (sig, tail, form) = make_multisig_form hash160 minsigs pubkeys sigs s made in
    rw (← form) (
      multisig_round_trip hash160 garbage minsigs pubkeys sig tail bytes keys one enough few
        (rw (← form) at written) small)
