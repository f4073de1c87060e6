-- ===== src/Chain/Lookup.antt =====
-- CoinQBlockTreeMem::getLocatorHashes. A negative `maxSize` is `none`.
use coin_vault.Common.{
  Bytes, length, ℕ, zero, suc, ◌+◌, ◌-◌, ◌*◌, ◌≤◌, ◌<◌, ◌≡◌, refl, ◌≢◌, inl, inr, Option, none,
  some, List, [], ◌∷◌, arith, ltb, leb, ◌==◌, if◌then◌else◌, Bool-cases, Result, ◌>>=◌,
  out_of_range, fault, stuck, err, ok,
}
use coin_vault.Wire.BlockHeader.{BlockHeader}
use coin_vault.Chain.Headers.{ChainHeader, BlockTree, find, or_throw}

-- `mHeaderHeightMap.at(i)`
unfoldable pub find_height : ℕ → List (ℕ × Bytes) → Option Bytes
find_height n [] = none
find_height n ((m, key) ∷ entries) = if m == n then some key else find_height n entries

abbrev deref : Option ChainHeader → Result ChainHeader
deref none = fault
deref (some h) = ok h

-- The header that a pointer in the map of heights points to.
unfoldable pub header_at_height : BlockTree → ℕ → Result ChainHeader
unfolding find_height find
header_at_height t i = do
  key ← or_throw out_of_range (find_height i t.heights)
  elim (find key t.headers) [ none ↦ fault | some h ↦ ok h ]

abbrev zero_hash : ℕ → Bytes
zero_hash zero = []
zero_hash (suc n) = 0 ∷ zero_hash n

module _ (get_hash : BlockHeader → Bytes) (t : BlockTree) (max_size : ℕ) where
  -- `while ((i >= 0) && (n < maxSize))`; `i -= step` ends the loop when it is below 0.
  unfoldable pub locator_loop : ℕ → ℕ → ℕ → ℕ → Result (List Bytes)
  unfolding header_at_height
  locator_loop zero i n step = stuck
  locator_loop (suc fuel) i n step = if leb max_size n then ok [] else (do
    h ← header_at_height t i
    if ltb i step then ok (get_hash h.header ∷ []) else (do
      hashes ← locator_loop fuel (i - step) (n + 1) (if ltb 10 (n + 1) then step * 2 else step)
      ok (get_hash h.header ∷ hashes)))

  -- What the loop returns.
  abbrev Located : ℕ → Result (List Bytes) → Type 0
  Located n (ok hashes) = length hashes ≤ max_size - n
  Located n (err e) = Unit
  Located n fault = Unit
  Located n stuck = ⊥

  one_more :
      (n : ℕ) (hash : Bytes) (rest : Result (List Bytes))
      → n < max_size
      → Located (n + 1) rest
      → Located n (rest >>= λ hashes. ok (hash ∷ hashes))
  one_more n hash (ok hashes) room v = omega arith
  one_more n hash (err e) room v = tt
  one_more n hash fault room v = tt
  one_more n hash stuck room v = absurd v

  at_header :
      (n : ℕ) (found : Result ChainHeader) (next : ChainHeader → Result (List Bytes))
      → found ≢ stuck
      → ((h : ChainHeader) → Located n (next h))
      → Located n (found >>= next)
  at_header n (ok h) next never v = v h
  at_header n (err e) next never v = tt
  at_header n fault next never v = tt
  at_header n stuck next never v = absurd (never refl)

  deref-ne-stuck : (found : Option ChainHeader) → deref found ≢ stuck
  deref-ne-stuck none e = cc
  deref-ne-stuck (some h) e = cc

  pointed-ne-stuck :
      (found : Option Bytes)
      → (or_throw out_of_range found >>= λ key. deref (find key t.headers)) ≢ stuck
  pointed-ne-stuck none e = cc
  pointed-ne-stuck (some key) e = deref-ne-stuck (find key t.headers) e

  header_at_height-ne-stuck : (i : ℕ) → header_at_height t i ≢ stuck
  unfolding header_at_height
  header_at_height-ne-stuck i e = pointed-ne-stuck (find_height i t.heights) e

  -- With more fuel than the height, the loop ends.
  pub locator_loop-Located :
      (fuel i n step : ℕ) → i < fuel → 1 ≤ step → Located n (locator_loop fuel i n step)
  unfolding locator_loop
  locator_loop-Located zero i n step enough moves = absurd (omega arith)
  locator_loop-Located (suc fuel) i n step enough moves = elim (Bool-cases (leb max_size n)) [
    | inl full ↦ rw full (omega arith)
    | inr room ↦
        let more =
          locator_loop-Located fuel (i - step) (n + 1)
            (if ltb 10 (n + 1) then step * 2 else step) in
        rw room (
          at_header n (header_at_height t i) _ (header_at_height-ne-stuck i) λ h.
            elim (Bool-cases (ltb i step)) [
              | inl last ↦ rw last (ground arith)
              | inr on ↦ rw on (
                  one_more n (get_hash h.header) _ (ground arith)
                    (more (ground arith) (ground arith)))
            ])
  ]

unfoldable pub get_locator_hashes :
    (BlockHeader → Bytes) → Option ℕ → BlockTree → Result (List Bytes)
unfolding locator_loop
get_locator_hashes get_hash max_size t = elim t.best_height [
  | none ↦ ok (zero_hash 32 ∷ [])
  | some best ↦ elim max_size [
    | none ↦ locator_loop get_hash t (best + 1) (best + 1) best 0 1
    | some size ↦ locator_loop get_hash t size (best + 1) best 0 1
  ]
]

-- For a maximum of at least 1 that is given, the loop of getLocatorHashes ends (the fuel of the
-- model, one more than the best height, is enough), and when hashes are returned, there are no
-- more of them than the maximum.
pub length-get_locator_hashes :
    (get_hash : BlockHeader → Bytes) (size : ℕ) (t : BlockTree)
    → 1 ≤ size
    → (get_locator_hashes get_hash (some size) t ≢ stuck)
      × ((hashes : List Bytes)
          → get_locator_hashes get_hash (some size) t ≡ ok hashes
          → length hashes ≤ size)
unfolding get_locator_hashes
length-get_locator_hashes get_hash size t positive = bounded t.best_height
  where
    Bounded : Result (List Bytes) → Type 0
    Bounded r = (r ≢ stuck) × ((hashes : List Bytes) → r ≡ ok hashes → length hashes ≤ size)

    within : (r : Result (List Bytes)) → Located get_hash t size 0 r → Bounded r
    within (ok hashes) v =
        (λ e. cc, λ others e. let same : hashes ≡ others = cc in rw (← same) (omega arith))
    within (err x) v = (λ e. cc, λ others e. cc)
    within fault v = (λ e. cc, λ others e. cc)
    within stuck v = absurd v

    bounded :
        (best : Option ℕ)
        → Bounded (elim best [
          | none ↦ ok (zero_hash 32 ∷ [])
          | some b ↦ locator_loop get_hash t size (b + 1) b 0 1
        ])
    bounded none = (
      λ e. cc,
      λ others e. let same : zero_hash 32 ∷ [] ≡ others = cc in rw (← same) (omega arith),
    )
    bounded (some b) =
        within (locator_loop get_hash t size (b + 1) b 0 1)
          (locator_loop-Located get_hash t size (b + 1) b 0 1 (omega arith) (omega arith))
