-- ===== src/Wire/Codec.antt =====
-- The interface that the structures of the protocol share (class CoinNodeStructure), with the laws
-- that their clients rely on, and the loop that reads a counted sequence of them.
use native.Mathlib.Nat.{add-zero, add_assoc}
use coin_vault.Common.{
  Bytes, length, length-append, seek, u32, drop, ℕ, zero, suc, ◌+◌, ◌^◌, ◌<◌, ◌≡◌, refl, List, [],
  ◌∷◌, ◌++◌, append_assoc, arith, Result, ◌>>=◌, ok,
}

pub record Codec (A : Type 0) : Type 1 where
  pub get_size : A → ℕ
  pub get_serialized : A → Bytes
  pub set_serialized : Bytes → Result A
  pub IsValid : A → Type 0
  pub length_law : (a : A) → IsValid a → length (get_serialized a) ≡ get_size a
  pub round_trip :
      (a : A) (rest : Bytes) → IsValid a → set_serialized (get_serialized a ++ rest) ≡ ok a

module _ {A : Type 0} (c : Codec A) where
  open c use {get_size, get_serialized, set_serialized, IsValid, length_law, round_trip}

  -- `for (i = 0; i < items.size(); i++) rval += items[i].getSerialized();`
  unfoldable pub append_items : List A → Bytes
  append_items [] = []
  append_items (a ∷ items) = get_serialized a ++ append_items items

  unfoldable pub sum_sizes : List A → ℕ
  sum_sizes [] = 0
  sum_sizes (a ∷ items) = get_size a + sum_sizes items

  -- `for (i = 0; i < count; i++) { T item(uchar_vector(bytes.begin() + pos, bytes.end()));
  -- items.push_back(item); pos += item.getSize(); }`, where `pos` is a `uint`.
  unfoldable pub read_items : ℕ → Bytes → ℕ → Result (List A × ℕ)
  read_items zero bytes pos = ok ([], pos)
  read_items (suc n) bytes pos = do
    field ← drop pos bytes
    item ← set_serialized field
    (tail, end) ← read_items n bytes (u32 (pos + get_size item))
    ok (item ∷ tail, end)

  abbrev pub AllValid : List A → Type 0
  AllValid [] = Unit {0}
  AllValid (a ∷ items) = IsValid a × AllValid items

  pub length-append_items :
      (items : List A) → AllValid items → length (append_items items) ≡ sum_sizes items
  unfolding append_items sum_sizes
  length-append_items [] v = refl
  length-append_items (a ∷ items) v = omega (
    arith,
    length-append (get_serialized a) (append_items items),
    length_law a v.0,
    length-append_items items v.1,
  )

  -- A sequence that was written under the cursor is read back, and the cursor stands behind it.
  pub read_items-append_items :
      (items : List A) (bs rest : Bytes) (pos : ℕ)
      → AllValid items
      → drop pos bs ≡ ok (append_items items ++ rest)
      → pos + sum_sizes items < 2 ^ 32
      → read_items (length items) bs pos ≡ ok (items, pos + sum_sizes items)
  unfolding append_items sum_sizes read_items
  read_items-append_items [] bs rest pos v h fits = rw add-zero refl
  read_items-append_items (a ∷ items) bs rest pos v h fits =
      let later =
        read_items-append_items items bs rest (pos + get_size a) v.1 behind (omega arith) in
      rw (here, round_trip a (append_items items ++ rest) v.0, wrap, later, add_assoc) refl
    where
      here : drop pos bs ≡ ok (get_serialized a ++ (append_items items ++ rest))
      here = rw append_assoc at h

      wrap : u32 (pos + get_size a) ≡ pos + get_size a
      wrap = omega arith

      behind : drop (pos + get_size a) bs ≡ ok (append_items items ++ rest)
      behind = seek pos _ bs (get_serialized a) _ here (omega (arith, length_law a v.0))
