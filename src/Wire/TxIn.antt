-- ===== src/Wire/TxIn.antt =====
-- class TxIn of CoinNodeData.h and CoinNodeData.cpp.
use coin_vault.Common.{
  Bytes, length, length-append, drop-append, slice_field, seek, u32, u64, mod-le, drop, slice,
  big_endian, length-uint_to_vch, read_uint_short, read_uint_field, uint_to_vch, read_uint, ℕ, ◌+◌,
  ◌^◌, ◌≤◌, ◌<◌, ◌≡◌, refl, ◌∙◌, Bool, true, [], ◌++◌, append_assoc, append-nil, arith, ltb,
  if◌then◌else◌, ltb-false, Result, ◌>>=◌, ◌>>◌, throw_if, too_small, wrong_length, ok, fault,
}
use coin_vault.Wire.VarInt
use coin_vault.Wire.Codec.{Codec}
use coin_vault.Wire.VarInt.{get_size_bounds}
use coin_vault.Wire.OutPoint.{OutPoint}
use coin_vault.Wire.OutPoint

pub record TxIn : Type 0 where
  pub previous_out : OutPoint
  pub script_sig : Bytes
  pub sequence : ℕ

abbrev pub min_size : ℕ
min_size = 41

unfoldable pub get_size : TxIn → ℕ
get_size t = VarInt.get_size (length t.script_sig) + length t.script_sig + 40

unfoldable pub get_serialized_with : Bool → TxIn → Bytes
get_serialized_with include_length t =
    OutPoint.get_serialized t.previous_out
    ++ ((if include_length then VarInt.get_serialized (length t.script_sig) else [])
        ++ (t.script_sig ++ uint_to_vch 4 t.sequence big_endian))

unfoldable pub get_serialized : TxIn → Bytes
unfolding get_serialized_with
get_serialized = get_serialized_with true

-- The test on the length is made in `uint64_t`; `pos` is a `uint`.
unfoldable pub set_serialized : Bytes → Result TxIn
set_serialized bytes = do
  throw_if (ltb (length bytes) min_size) too_small
  previous_out ← OutPoint.set_serialized bytes
  field ← drop 36 bytes
  script_length ← VarInt.set_serialized field
  let pos = VarInt.get_size script_length + 36
  throw_if (ltb (length bytes) (u64 (pos + script_length))) wrong_length
  script ← slice bytes pos script_length
  sequence ← read_uint bytes (u32 (pos + script_length)) 4 big_endian
  ok (record { previous_out = previous_out; script_sig = script; sequence = sequence })

-- The whole structure, at most 49 bytes longer than its script, is shorter than 2^32 bytes.
pub record IsValid (t : TxIn) : Type 0 where
  pub out_valid : OutPoint.IsValid t.previous_out
  pub size_range : length t.script_sig + 49 < 2 ^ 32
  pub sequence_range : t.sequence < 2 ^ 32

pub length-tx_in : (t : TxIn) → IsValid t → length (get_serialized t) ≡ get_size t
unfolding get_serialized get_size
length-tx_in t v = omega (
  arith,
  length-append (OutPoint.get_serialized t.previous_out) (
      VarInt.get_serialized (length t.script_sig)
      ++ (t.script_sig ++ uint_to_vch 4 t.sequence big_endian)),
  length-append (VarInt.get_serialized (length t.script_sig))
      (t.script_sig ++ uint_to_vch 4 t.sequence big_endian),
  length-append t.script_sig (uint_to_vch 4 t.sequence big_endian),
  length-uint_to_vch 4 t.sequence big_endian,
  VarInt.length-varint (length t.script_sig),
  OutPoint.length-out_point t.previous_out v.out_valid,
  OutPoint.get_size_lem t.previous_out,
)

-- What the parser sees: an out point, a script with its length, and then `tail`.
module _ (o : OutPoint) (script tail : Bytes) (valid : OutPoint.IsValid o)
    (range : length script + 49 < 2 ^ 32) where
  n : ℕ
  n = length script

  rest : Bytes
  unfolding n
  rest = VarInt.get_serialized n ++ (script ++ tail)

  bs : Bytes
  unfolding rest
  bs = OutPoint.get_serialized o ++ rest

  out_size : length (OutPoint.get_serialized o) ≡ 36
  out_size = OutPoint.length-out_point o valid ∙ OutPoint.get_size_lem o

  total : length bs ≡ 36 + VarInt.get_size n + n + length tail
  unfolding bs
  total = omega (
    arith,
    length-append (OutPoint.get_serialized o) rest,
    length-append (VarInt.get_serialized n) (script ++ tail),
    length-append script tail,
    out_size,
    VarInt.length-varint n,
  )

  second : drop 36 bs ≡ ok rest
  unfolding bs
  second = drop-append 36 (OutPoint.get_serialized o) rest out_size

  third : drop (VarInt.get_size n + 36) bs ≡ ok (script ++ tail)
  unfolding rest
  third =
      seek 36 _ bs (VarInt.get_serialized n) (script ++ tail) second
        (omega (arith, VarInt.length-varint n))

  -- Up to the sequence number the parser succeeds.
  set_serialized_front :
      41 ≤ length bs
      → set_serialized bs ≡ (
          read_uint bs (u32 (VarInt.get_size n + 36 + n)) 4 big_endian >>= λ sequence.
          ok (record { previous_out = o; script_sig = script; sequence = sequence }))
  unfolding n
  set_serialized_front long =
      unfold set_serialized in
      rw
        (
          ltb-false (length bs) min_size long,
          previous_out,
          second,
          script_length,
          ltb-false (length bs) (u64 (VarInt.get_size n + 36 + n)) fits,
          slice_field _ n bs script tail third refl,
        )
        refl
    where
      fits : u64 (VarInt.get_size n + 36 + n) ≤ length bs
      fits = omega (arith, total, mod-le (VarInt.get_size n + 36 + n) (2 ^ 64))

      previous_out : OutPoint.set_serialized bs ≡ ok o
      previous_out = unfold bs in OutPoint.out_point_round_trip o rest valid

      script_length : VarInt.set_serialized rest ≡ ok n
      script_length = unfold rest in VarInt.varint_round_trip n (script ++ tail) (omega arith)

-- For an input whose outpoint is valid, whose sequence is below 2^32 and whose script is more than
-- 49 bytes shorter than 2^32, setSerialized reads the input back from what getSerialized wrote,
-- whatever bytes follow it.
pub tx_in_round_trip :
    (t : TxIn) (more : Bytes) → IsValid t → set_serialized (get_serialized t ++ more) ≡ ok t
unfolding get_serialized bs rest n get_size
tx_in_round_trip t more v =
    rw (append_assoc, append_assoc, append_assoc)
      (set_serialized_front t.previous_out t.script_sig tail v.out_valid v.size_range long
        ∙ rw (wrap, sequence) refl)
  where
    m : ℕ
    m = length t.script_sig

    tail : Bytes
    tail = uint_to_vch 4 t.sequence big_endian ++ more

    bytes : Bytes
    bytes = bs t.previous_out t.script_sig tail v.out_valid v.size_range

    size : length bytes ≡ 36 + VarInt.get_size m + m + length tail
    size = total t.previous_out t.script_sig tail v.out_valid v.size_range

    long : 41 ≤ length bytes
    long = omega (
      arith,
      size,
      get_size_bounds m,
      length-append (uint_to_vch 4 t.sequence big_endian) more,
      length-uint_to_vch 4 t.sequence big_endian,
    )

    wrap : u32 (VarInt.get_size m + 36 + m) ≡ VarInt.get_size m + 36 + m
    wrap = omega (arith, get_size_bounds m, v.size_range)

    fourth : drop (VarInt.get_size m + 36 + m) bytes ≡ ok tail
    fourth =
        seek _ _ bytes t.script_sig tail
          (third t.previous_out t.script_sig tail v.out_valid v.size_range) refl

    sequence : read_uint bytes (VarInt.get_size m + 36 + m) 4 big_endian ≡ ok t.sequence
    sequence = read_uint_field _ 3 t.sequence big_endian bytes more fourth v.sequence_range

-- When a serialized input is cut off behind its script, which has at least 4 bytes and is more
-- than 49 bytes shorter than 2^32, the length test of setSerialized passes and the read of the
-- sequence leaves the vector.
pub tx_in_cut :
    (o : OutPoint) (script : Bytes)
    → OutPoint.IsValid o
    → 4 ≤ length script
    → length script + 49 < 2 ^ 32
    → set_serialized
        (OutPoint.get_serialized o ++ (VarInt.get_serialized (length script) ++ script))
      ≡ fault
unfolding bs rest n
tx_in_cut o script valid long range = rw (append-nil script) at whole
  where
    bytes : Bytes
    bytes = bs o script [] valid range

    m : ℕ
    m = length script

    size : length bytes ≡ 36 + VarInt.get_size m + m + 0
    size = total o script [] valid range

    front : set_serialized bytes ≡ (
        read_uint bytes (u32 (VarInt.get_size m + 36 + m)) 4 big_endian >>= λ sequence.
        ok (record { previous_out = o; script_sig = script; sequence = sequence }))
    front = set_serialized_front o script [] valid range (omega (arith, size, get_size_bounds m))

    past : read_uint bytes (u32 (VarInt.get_size m + 36 + m)) 4 big_endian ≡ fault
    past = read_uint_short _ _ 4 big_endian (omega (arith, size, get_size_bounds m))

    whole : set_serialized bytes ≡ fault
    whole = front ∙ rw past refl

unfoldable pub tx_in_codec : Codec TxIn
tx_in_codec = record {
  get_size = get_size;
  get_serialized = get_serialized;
  set_serialized = set_serialized;
  IsValid = IsValid;
  length_law = length-tx_in;
  round_trip = tx_in_round_trip;
}
