-- ===== src/Wire/Headers.antt =====
-- class HeadersMessage of CoinNodeData.h and CoinNodeData.cpp.
use coin_vault.Common.{
  Bytes, length, length-append, drop-append, drop-length, slice_field, seek, u32, u64, mod-le, drop,
  slice, ℕ, zero, suc, ◌+◌, ◌*◌, ◌^◌, ◌≤◌, ◌<◌, ◌≡◌, refl, List, [], ◌∷◌, ◌++◌, append_assoc,
  append-nil, arith, ltb, ltb-false, Result, ◌>>=◌, ◌>>◌, throw_if, too_small, ok,
}
use coin_vault.Wire.VarInt
use coin_vault.Wire.VarInt.{get_size_bounds}
use coin_vault.Wire.BlockHeader
use coin_vault.Wire.BlockHeader.{BlockHeader, length-block_header, block_header_round_trip}

pub record HeadersMessage : Type 0 where
  pub headers : List BlockHeader

unfoldable pub get_size : HeadersMessage → ℕ
get_size m = VarInt.get_size (length m.headers) + length m.headers * 81

-- Behind each header stands a blank byte.
unfoldable pub append_headers : List BlockHeader → Bytes
append_headers [] = []
append_headers (h ∷ hs) = BlockHeader.get_serialized h ++ (0 ∷ append_headers hs)

unfoldable pub get_serialized : HeadersMessage → Bytes
unfolding append_headers
get_serialized m = VarInt.get_serialized (length m.headers) ++ append_headers m.headers

-- The loop over the headers; `pos` is a `uint`.
unfoldable pub read_headers : ℕ → Bytes → ℕ → Result (List BlockHeader)
unfolding BlockHeader.set_serialized
read_headers zero bytes pos = ok []
read_headers (suc n) bytes pos = do
  field ← slice bytes pos 80
  header ← BlockHeader.set_serialized field
  later ← read_headers n bytes (u32 (pos + 81))
  ok (header ∷ later)

-- The test is in `uint64_t`.
unfoldable pub set_serialized : Bytes → Result HeadersMessage
unfolding read_headers
set_serialized bytes = do
  count ← VarInt.set_serialized bytes
  throw_if (ltb (length bytes) (u64 (VarInt.get_size count + count * 81))) too_small
  headers ← read_headers count bytes (VarInt.get_size count)
  ok (record { headers = headers })

abbrev pub AllValid : List BlockHeader → Type 0
AllValid [] = Unit {0}
AllValid (h ∷ hs) = BlockHeader.IsValid h × AllValid hs

length-append_headers :
    (hs : List BlockHeader) → AllValid hs → length (append_headers hs) ≡ length hs * 81
unfolding append_headers BlockHeader.get_size
length-append_headers [] v = refl
length-append_headers (h ∷ hs) v = omega (
  arith,
  length-append (BlockHeader.get_serialized h) (0 ∷ append_headers hs),
  length-block_header h v.0,
  length-append_headers hs v.1,
)

-- Headers that were written under the cursor are read back.
read_headers-append_headers :
    (hs : List BlockHeader) (bs rest : Bytes) (pos : ℕ)
    → AllValid hs
    → drop pos bs ≡ ok (append_headers hs ++ rest)
    → pos + length hs * 81 < 2 ^ 32
    → read_headers (length hs) bs pos ≡ ok hs
unfolding append_headers read_headers BlockHeader.get_size
read_headers-append_headers [] bs rest pos v h fits = refl
read_headers-append_headers (b ∷ hs) bs rest pos v h fits =
    rw
      (
        slice_field pos 80 bs (BlockHeader.get_serialized b) _ here size,
        alone,
        wrap,
        read_headers-append_headers hs bs rest (pos + 81) v.1 behind (omega arith),
      )
      refl
  where
    size : length (BlockHeader.get_serialized b) ≡ 80
    size = length-block_header b v.0

    here : drop pos bs ≡ ok (BlockHeader.get_serialized b ++ (0 ∷ (append_headers hs ++ rest)))
    here = rw append_assoc at h

    alone : BlockHeader.set_serialized (BlockHeader.get_serialized b) ≡ ok b
    alone = rw append-nil at (block_header_round_trip b [] v.0)

    wrap : u32 (pos + 81) ≡ pos + 81
    wrap = omega arith

    behind : drop (pos + 81) bs ≡ ok (append_headers hs ++ rest)
    behind =
        seek (pos + 80) (pos + 81) bs (0 ∷ []) (append_headers hs ++ rest)
          (seek pos (pos + 80) bs (BlockHeader.get_serialized b) _ here (omega (arith, size)))
          (omega arith)

-- For a HeadersMessage whose headers are valid and whose serialized form has less than 2^32 bytes,
-- setSerialized reads the headers back from what getSerialized wrote, whatever bytes follow them.
pub headers_round_trip :
    (m : HeadersMessage) (rest : Bytes)
    → AllValid m.headers
    → get_size m < 2 ^ 32
    → set_serialized (get_serialized m ++ rest) ≡ ok m
unfolding set_serialized get_serialized get_size
headers_round_trip m rest v fits =
    rw
      (
        append_assoc,
        VarInt.varint_round_trip n (append_headers m.headers ++ rest) (omega arith),
        ltb-false (length whole) (u64 (VarInt.get_size n + n * 81)) room,
        read_headers-append_headers m.headers whole rest (VarInt.get_size n) v cursor fits,
      )
      refl
  where
    n : ℕ
    n = length m.headers

    whole : Bytes
    whole = VarInt.get_serialized n ++ (append_headers m.headers ++ rest)

    cursor : drop (VarInt.get_size n) whole ≡ ok (append_headers m.headers ++ rest)
    cursor = drop-append (VarInt.get_size n) _ _ (VarInt.length-varint n)

    room : u64 (VarInt.get_size n + n * 81) ≤ length whole
    room = omega (
      arith,
      drop-length _ whole cursor,
      length-append (append_headers m.headers) rest,
      length-append_headers m.headers v,
      mod-le (VarInt.get_size n + n * 81) (2 ^ 64),
    )
