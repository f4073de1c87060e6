-- ===== src/Script/Object/Parse.antt =====
-- The constructor of class Script that reads an input script (CoinQ_script.cpp).
use coin_vault.Common.{
  Bytes, length, u32, slice, at, ℕ, zero, suc, ◌+◌, ◌-◌, ◌*◌, ◌%◌, ◌<◌, Bool, true, not, ◌&&◌, ◌||◌,
  List, [], ◌∷◌, ltb, leb, ◌==◌, if◌then◌else◌, Result, ◌>>=◌, ◌>>◌, throw_if, push_exceeds_data,
  redeem_too_short, invalid_minimum, premature_end, invalid_count, minimum_exceeds_keys,
  invalid_termination, invalid_op, too_many_keys, ok, stuck,
}
pub mod Loops
use coin_vault.Script.PushData.{get_data_length}
use coin_vault.Script.Object.{
  Script, unknown, pay_to_pubkey_hash, pay_to_multisig_script_hash, is_empty,
}

-- `while (pos < txinscript.size())`, with fuel; `pos` is an `unsigned int`.
unfoldable pub parse_objects : ℕ → Bytes → ℕ → Result (List Bytes)
unfolding get_data_length slice
parse_objects zero script pos = stuck
parse_objects (suc fuel) script pos =
    if ltb pos (length script)
    then (do
      (size, start) ← get_data_length script pos
      throw_if (ltb (length script) (start + size)) push_exceeds_data
      object ← slice script start size
      objects ← parse_objects fuel script (u32 (start + size))
      ok (object ∷ objects))
    else ok []

abbrev is_counter : ℕ → Bool
is_counter byte = leb 0x51 byte && leb byte 0x60

-- The end of the redeem script, from its counter on; `pos` stands behind the counter.
unfoldable pub check_end : Bytes → ℕ → ℕ → ℕ → ℕ → Result (Unit {0})
unfolding at
check_end redeem minsigs byte numkeys pos = do
  throw_if (not (byte == numkeys)) invalid_count
  throw_if (ltb numkeys minsigs) minimum_exceeds_keys
  last ← at redeem pos
  throw_if (not (last == 0xae) || ltb (length redeem) (u32 (pos + 1))) invalid_termination
  ok tt

-- `while (true)` over the redeem script, with fuel. `numkeys` is an `unsigned char`.
unfoldable pub read_keys : ℕ → Bytes → ℕ → ℕ → ℕ → Result (List Bytes)
unfolding check_end at slice
read_keys zero redeem minsigs numkeys pos = stuck
read_keys (suc fuel) redeem minsigs numkeys pos = do
  byte ← at redeem pos
  let start = u32 (pos + 1)
  throw_if (leb (length redeem) start) premature_end
  if is_counter byte then (check_end redeem minsigs byte numkeys start >> ok []) else (do
    throw_if (ltb 0x4b byte || ltb (length redeem) (u32 (start + byte))) invalid_op
    let more = (numkeys + 1) % 256
    throw_if (ltb 0x60 more) too_many_keys
    key ← slice redeem start byte
    keys ← read_keys fuel redeem minsigs more (u32 (start + byte))
    ok (key ∷ keys))

abbrev pub but_last : Bytes → List Bytes → List Bytes
but_last x [] = []
but_last x (y ∷ ys) = x ∷ but_last y ys

abbrev pub last_of : Bytes → List Bytes → Bytes
last_of x [] = x
last_of x (y ∷ ys) = last_of y ys

-- `hash160` stands for ripemd160 after sha256; `garbage` is what `minsigs_` holds if it is not set.
module _ (hash160 : Bytes → Bytes) (garbage : ℕ) where
  unfoldable pub from_redeem_script : List Bytes → Bytes → Result Script
  unfolding read_keys at
  from_redeem_script sigs redeem = do
    throw_if (ltb (length redeem) 3) redeem_too_short
    minsigs ← at redeem 0
    throw_if (ltb minsigs 0x51 || ltb 0x60 minsigs) invalid_minimum
    pubkeys ← read_keys (length redeem) redeem minsigs 0x50 1
    ok (record {
      kind = pay_to_multisig_script_hash;
      minsigs = minsigs - 0x50;
      pubkeys = pubkeys;
      sigs = sigs;
      redeem_script = redeem;
      hash = hash160 redeem;
    })

  abbrev unknown_script : Script
  unknown_script = record {
    kind = unknown;
    minsigs = garbage;
    pubkeys = [];
    sigs = [];
    redeem_script = [];
    hash = [];
  }

  unfoldable pub from_objects : List Bytes → Result Script
  unfolding from_redeem_script
  from_objects (sig ∷ key ∷ []) = ok (record {
    kind = pay_to_pubkey_hash;
    minsigs = 1;
    pubkeys = key ∷ [];
    sigs = sig ∷ [];
    redeem_script = [];
    hash = hash160 key;
  })
  from_objects ([] ∷ x ∷ y ∷ more) =
      from_redeem_script (but_last x (y ∷ more)) (last_of x (y ∷ more))
  from_objects objects = ok unknown_script

  unfoldable pub parse : Bytes → Result Script
  unfolding parse_objects from_objects
  parse txinscript = do
    objects ← parse_objects (suc (length txinscript)) txinscript 0
    from_objects objects
