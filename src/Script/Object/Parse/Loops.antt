-- ===== src/Script/Object/Parse/Loops.antt =====
-- The loops of class Script's parsing constructor, on what the writing functions produce.
use coin_vault.Common.{
  Bytes, length, length-append, drop-length, drop_field, slice_field, u32, drop, ℕ, zero, suc, ◌+◌,
  ◌%◌, ◌^◌, ◌≤◌, ◌<◌, ◌≡◌, refl, List, [], ◌∷◌, ◌++◌, append_assoc, arith, ltb-true, ltb-false,
  ==-refl, leb-true, leb-false, ◌>>=◌, ok,
}
use coin_vault.Script.PushData.{
  op_push_data, get_data_length-op_push_data, length-op_push_data, op_push_data_short, at_cursor,
}
use coin_vault.Script.Object.{push_objects}
use coin_vault.Script.Object.Parse.{parse_objects, read_keys, check_end}

-- The loop reads back objects that were pushed one after the other.
pub parse_objects-push_objects :
    (objects : List Bytes) (fuel pos : ℕ) (script : Bytes)
    → length objects < fuel
    → length script < 2 ^ 32
    → drop pos script ≡ ok (push_objects objects)
    → parse_objects fuel script pos ≡ ok objects
unfolding parse_objects push_objects
parse_objects-push_objects objects zero pos script f s h = absurd (omega arith)
parse_objects-push_objects [] (suc fuel) pos script f s h =
    rw (ltb-false pos (length script) (omega (arith, drop-length pos script h))) refl
parse_objects-push_objects (x ∷ xs) (suc fuel) pos script f s h =
    let n : ℕ = length x in
    let m : ℕ = length (op_push_data n) in
    let room = drop-length pos script h in
    let parts = length-append (op_push_data n) (x ++ push_objects xs) in
    let inner = length-append x (push_objects xs) in
    let bounds = length-op_push_data n in
    let size : length script ≡ pos + (m + (n + length (push_objects xs))) = omega arith in
    let here = drop_field pos m script (op_push_data n) (x ++ push_objects xs) h refl in
    let behind = drop_field (pos + m) n script x (push_objects xs) here refl in
    let wrap : u32 (pos + m + n) ≡ pos + m + n = omega arith in
    rw
      (
        ltb-true pos (length script) (omega arith),
        get_data_length-op_push_data n pos script (x ++ push_objects xs) (omega arith) s h,
        ltb-false (length script) (pos + m + n) (omega arith),
        slice_field (pos + m) n script x (push_objects xs) here refl,
        wrap,
        parse_objects-push_objects xs fuel (pos + m + n) script (omega arith) s behind,
      )
      refl

-- Keys that a redeem script can hold: at most 75 bytes each.
abbrev pub AllKeys : List Bytes → Type 0
AllKeys [] = Unit {0}
AllKeys (key ∷ keys) = (length key ≤ 0x4b) × AllKeys keys

module _ (redeem : Bytes) (small : length redeem < 2 ^ 32) (minsigs fuel : ℕ) where
  -- A counter byte that agrees with the keys read so far ends the loop.
  read_keys_end :
      (c pos : ℕ)
      → 0x51 ≤ c
      → c ≤ 0x60
      → minsigs ≤ c
      → drop pos redeem ≡ ok (c ∷ 0xae ∷ [])
      → read_keys (suc fuel) redeem minsigs c pos ≡ ok []
  unfolding read_keys check_end
  read_keys_end c pos lo hi enough h =
      let room = drop-length pos redeem h in
      let w1 : u32 (pos + 1) ≡ pos + 1 = omega arith in
      let w2 : u32 (pos + 1 + 1) ≡ pos + 1 + 1 = omega arith in
      let behind = drop_field pos 1 redeem (c ∷ []) (0xae ∷ []) h refl in
      rw
        (
          at_cursor redeem pos h,
          w1,
          leb-false (length redeem) (pos + 1) (omega arith),
          leb-true 0x51 c lo,
          leb-true c 0x60 hi,
          ==-refl c,
          ltb-false c minsigs enough,
          at_cursor redeem (pos + 1) behind,
          w2,
          ltb-false (length redeem) (pos + 1 + 1) (omega arith),
        )
        refl

  -- A key of at most 75 bytes is read, and the loop goes on behind it.
  read_keys_next :
      (key rest : Bytes) (numkeys pos : ℕ)
      → length key ≤ 0x4b
      → numkeys < 0x60
      → 0 < length rest
      → drop pos redeem ≡ ok (length key ∷ (key ++ rest))
      → read_keys (suc fuel) redeem minsigs numkeys pos ≡ (
          read_keys fuel redeem minsigs (numkeys + 1) (pos + 1 + length key) >>= λ keys.
          ok (key ∷ keys))
  unfolding read_keys
  read_keys_next key rest numkeys pos short more left h =
      let n : ℕ = length key in
      let room = drop-length pos redeem h in
      let parts = length-append key rest in
      let w1 : u32 (pos + 1) ≡ pos + 1 = omega arith in
      let w2 : u32 (pos + 1 + n) ≡ pos + 1 + n = omega arith in
      let count : (numkeys + 1) % 256 ≡ numkeys + 1 = omega arith in
      let behind = drop_field pos 1 redeem (n ∷ []) (key ++ rest) h refl in
      rw
        (
          at_cursor redeem pos h,
          w1,
          leb-false (length redeem) (pos + 1) (omega arith),
          leb-false 0x51 n (omega arith),
          ltb-false 0x4b n short,
          w2,
          ltb-false (length redeem) (pos + 1 + n) (omega arith),
          count,
          ltb-false 0x60 (numkeys + 1) (omega arith),
          slice_field (pos + 1) n redeem key rest behind refl,
        )
        refl

-- The loop reads back the keys of a redeem script, and checks its end.
pub read_keys-push_objects :
    (keys : List Bytes) (fuel minsigs numkeys c pos : ℕ) (redeem : Bytes)
    → length keys < fuel
    → length redeem < 2 ^ 32
    → AllKeys keys
    → c ≡ numkeys + length keys
    → 0x51 ≤ c
    → c ≤ 0x60
    → minsigs ≤ c
    → drop pos redeem ≡ ok (push_objects keys ++ (c ∷ 0xae ∷ []))
    → read_keys fuel redeem minsigs numkeys pos ≡ ok keys
unfolding push_objects
read_keys-push_objects keys zero minsigs numkeys c pos redeem f s a e lo hi enough h =
    absurd (omega arith)
read_keys-push_objects [] (suc fuel) minsigs numkeys c pos redeem f s a e lo hi enough h =
    let same : numkeys ≡ c = omega arith in
    rw same (read_keys_end redeem s minsigs fuel c pos lo hi enough h)
read_keys-push_objects (key ∷ keys) (suc fuel) minsigs numkeys c pos redeem f s a e lo hi enough h =
    let tail : Bytes = c ∷ 0xae ∷ [] in
    let rest : Bytes = push_objects keys ++ tail in
    let here : drop pos redeem ≡ ok (length key ∷ (key ++ rest)) =
      rw (op_push_data_short (length key) a.0, append_assoc key (push_objects keys) tail) at h in
    let behind = drop_field pos 1 redeem (length key ∷ []) (key ++ rest) here refl in
    let later = drop_field (pos + 1) (length key) redeem key rest behind refl in
    rw
      (
        read_keys_next redeem s minsigs fuel key rest numkeys pos a.0 (omega arith)
            (omega (arith, length-append (push_objects keys) tail)) here,
        read_keys-push_objects keys fuel minsigs (numkeys + 1) c (pos + 1 + length key) redeem
            (omega arith) s a.1 (omega arith) lo hi enough later,
      )
      refl
