-- ===== src/Bloom/Membership.antt =====
-- What has been inserted into a filter (class BloomFilter of CoinCore/src) stays in it.
use coin_vault.Common.{
  Bytes, length, u32, AllBytes, ℕ, zero, suc, ◌+◌, ◌*◌, ◌/◌, ◌%◌, ◌^◌, ◌≤◌, ◌<◌, min, ◌≡◌, refl, ap,
  ◌∙◌, inl, inr, Bool, true, false, not, ◌&&◌, ◌||◌, List, [], ◌∷◌, arith, ltb, ◌==◌, if◌then◌else◌,
  Bool-cases, if_cases, passes_below, passes_below-at, Result, ◌>>=◌, >>=-eq-ok, ok,
}
use Prim.Native.Nat.{bit_and, bit_or}
use coin_vault.Bloom.{
  BloomFilter, hash, bit_mask, set_bits, has_bits, murmur_hash3, insert_from, insert, match_from,
  match, zeros, set,
}

-- A byte with a bit set has this bit, is a byte, and has the bits that it had.
abbrev byte_test : ℕ → ℕ → ℕ → Bool
unfolding bit_mask
byte_test x k j =
    let after = bit_or x (bit_mask k) in
    not (bit_and after (bit_mask k) == 0)
    && (ltb after 256 && (bit_and x (bit_mask j) == 0 || not (bit_and after (bit_mask j) == 0)))

bytes_table : passes_below (λ x. passes_below (λ k. passes_below (byte_test x k) 8) 8) 256 ≡ true
unfolding passes_below bit_mask
bytes_table = refl

byte_holds : (x k j : ℕ) → x < 256 → k < 8 → j < 8 → byte_test x k j ≡ true
byte_holds x k j hx hk hj = passes_below-at (byte_test x k) 8 j hj (
    passes_below-at (λ k. passes_below (byte_test x k) 8) 8 k hk
      (passes_below-at (λ x. passes_below (λ k. passes_below (byte_test x k) 8) 8) 256 x hx
        bytes_table))

split_test :
    (a c d e : Bool)
    → (not a && (c && (d || not e))) ≡ true
    → (a ≡ false) × (c ≡ true) × (d ≡ false → e ≡ false)
split_test true c d e h = cc
split_test false false d e h = cc
split_test false true true e h = (refl, refl, λ f. cc)
split_test false true false true h = cc
split_test false true false false h = (refl, refl, λ f. refl)

byte_lem :
    (x k j : ℕ)
    → x < 256
    → k < 8
    → j < 8
    → (let after = bit_or x (bit_mask k) in
        ((bit_and after (bit_mask k) == 0) ≡ false)
        × (ltb after 256 ≡ true)
        × ((bit_and x (bit_mask j) == 0) ≡ false → (bit_and after (bit_mask j) == 0) ≡ false))
byte_lem x k j hx hk hj = split_test _ _ _ _ (unfold bit_mask in byte_holds x k j hx hk hj)

-- Every bit of one filter is in the other.
abbrev Keeps : Bytes → Bytes → Type 0
Keeps f g =
    (p j : ℕ) → j < 8 → has_bits f p (bit_mask j) ≡ ok true → has_bits g p (bit_mask j) ≡ ok true

ok_not : (b : Bool) → ok (not b) ≡ ok true → b ≡ false
ok_not true e = cc
ok_not false e = refl

set_here : (x k : ℕ) (f : Bytes) → x < 256 → k < 8 → Keeps (x ∷ f) (bit_or x (bit_mask k) ∷ f)
unfolding has_bits
set_here x k f hx hk zero j hj e =
    rw ((byte_lem x k j hx hk hj).2 (ok_not (bit_and x (bit_mask j) == 0) e)) refl
set_here x k f hx hk (suc p) j hj e = e

keep_head : (x : ℕ) (f g : Bytes) → Keeps f g → Keeps (x ∷ f) (x ∷ g)
unfolding has_bits
keep_head x f g keeps zero j hj e = e
keep_head x f g keeps (suc p) j hj e = keeps p j hj e

set_bits_lem :
    (f : Bytes) (n k : ℕ)
    → n < length f
    → AllBytes f
    → k < 8
    → (g : Bytes) × (set_bits f n (bit_mask k) ≡ ok g)
      × AllBytes g
      × (length g ≡ length f)
      × (has_bits g n (bit_mask k) ≡ ok true)
      × Keeps f g
unfolding set_bits has_bits
set_bits_lem [] n k h bytes hk = absurd (omega arith)
set_bits_lem (x ∷ f) zero k h bytes hk =
    let (has, low, _) = byte_lem x k 0 bytes.0 hk (omega arith) in
    (
      bit_or x (bit_mask k) ∷ f,
      refl,
      (ground arith, bytes.1),
      refl,
      rw has refl,
      set_here x k f bytes.0 hk,
    )
set_bits_lem (x ∷ f) (suc n) k h bytes hk =
    let (g, e, all, l, has, keeps) = set_bits_lem f n k (omega arith) bytes.1 hk in
    (x ∷ g, rw e refl, (bytes.0, all), ap suc l, has, keep_head x f g keeps)

==-false : (a b : ℕ) → b < a → (a == b) ≡ false
==-false a b h = ground arith

-- A hash is the number of a bit.
hash_lem :
    (b : BloomFilter) (n : ℕ) (bytes : Bytes)
    → 0 < length b.filter
    → (index : ℕ) × ((f : Bytes)
        → length f ≡ length b.filter
        → hash (record b { filter = f }) n bytes ≡ ok index)
      × (index / 2 ^ 3 < length b.filter)
unfolding hash
hash_lem b n bytes h =
    let index = murmur_hash3 (u32 (n * 0xfba4c795 + b.tweak)) bytes % (length b.filter * 8) in
    let low : index < length b.filter * 8 = grind arith in
    (index, λ f l. rw l (rw (==-false (length b.filter) 0 (omega arith)) refl), omega arith)

-- The next step of a loop succeeds, keeps what is there, and a match will find its bit.
insert_from_lem :
    (rounds n : ℕ) (bytes : Bytes) (b : BloomFilter)
    → 0 < length b.filter
    → AllBytes b.filter
    → (f : Bytes) × (insert_from rounds n bytes b ≡ ok (record b { filter = f }))
      × AllBytes f
      × (length f ≡ length b.filter)
      × Keeps b.filter f
      × (match_from rounds n bytes (record b { filter = f }) ≡ ok true)
unfolding insert_from match_from
insert_from_lem zero n bytes b h all = (b.filter, refl, all, refl, λ p j hj e. e, refl)
insert_from_lem (suc rounds) n bytes b h all =
    let (index, hashed, low) = hash_lem b n bytes h in
    let (g, e, gall, gl, has, keeps) =
      set_bits_lem b.filter (index / 2 ^ 3) (index % 8) low all (omega arith) in
    let (f, e', fall, fl, keeps', found) =
      insert_from_lem rounds (n + 1) bytes (record b { filter = g }) (omega (arith, gl)) gall in
    (
      f,
      rw (hashed b.filter refl, e) e',
      fall,
      fl ∙ gl,
      λ p j hj given. keeps' p j hj (keeps p j hj given),
      rw (hashed f (fl ∙ gl), keeps' (index / 2 ^ 3) (index % 8) (omega arith) has) found,
    )

-- A match survives the insertion of other elements.
match_from-Keeps :
    (rounds n : ℕ) (bytes : Bytes) (b : BloomFilter) (f : Bytes)
    → 0 < length b.filter
    → length f ≡ length b.filter
    → Keeps b.filter f
    → match_from rounds n bytes b ≡ ok true
    → match_from rounds n bytes (record b { filter = f }) ≡ ok true
unfolding match_from
match_from-Keeps zero n bytes b f h l keeps e = refl
match_from-Keeps (suc rounds) n bytes b f h l keeps e =
    let (index, hashed, low) = hash_lem b n bytes h in
    let (here, read, more) =
      >>=-eq-ok (has_bits b.filter (index / 2 ^ 3) (bit_mask (index % 8)))
        (λ (here : Bool). if here then match_from rounds (n + 1) bytes b else ok false)
        (rw (hashed b.filter refl) at e) in
    elim (if_cases here more) [
      | inl (yes_here, rest) ↦
          rw (hashed f l, keeps (index / 2 ^ 3) (index % 8) (omega arith) (read ∙ ap ok yes_here))
            (match_from-Keeps rounds (n + 1) bytes b f h l keeps rest)
      | inr (_, e) ↦ cc
    ]

-- The loop does not read whether the filter is empty.
match_from_empty :
    (rounds n : ℕ) (bytes : Bytes) (b : BloomFilter)
    → match_from rounds n bytes (record b { empty = false }) ≡ match_from rounds n bytes b
unfolding match_from
match_from_empty zero n bytes b = refl
match_from_empty (suc rounds) n bytes b = simp (match_from_empty rounds (n + 1) bytes b)

-- A filter has at least a byte, and holds bytes.
abbrev pub IsReady : BloomFilter → Type 0
IsReady b = (0 < length b.filter) × AllBytes b.filter

if_false {ℓ} : {A : Type ℓ} {b : Bool} (x y : A) → b ≡ false → (if b then x else y) ≡ y
if_false x y e = rw e refl

-- A match of a filter that is not full comes from its bits.
match_open :
    (b : BloomFilter) (other : Bytes)
    → b.full ≡ false
    → match b other ≡ ok true
    → match_from b.hash_funcs 0 other b ≡ ok true
unfolding match
match_open b other e given = elim (if_cases b.full given) [
  | inl (full, _) ↦ cc
  | inr (_, rest) ↦ elim (if_cases b.empty rest) [ inl (_, absent) ↦ cc | inr (_, found) ↦ found ]
]

insert_lem :
    (b : BloomFilter) (bytes : Bytes)
    → IsReady b
    → (after : BloomFilter) × (insert b bytes ≡ ok after)
      × IsReady after
      × (match after bytes ≡ ok true)
      × ((other : Bytes) → match b other ≡ ok true → match after other ≡ ok true)
unfolding insert match
insert_lem b bytes ready = elim (Bool-cases b.full) [
  | inl e ↦ (b, rw e refl, ready, rw e refl, λ other given. given)
  | inr e ↦
      let (f, inserted, all, l, keeps, found) =
        insert_from_lem b.hash_funcs 0 bytes b ready.0 ready.1 in
      (
        record b { filter = f; empty = false },
        if_false _ _ e ∙ rw inserted refl,
        (omega (arith, l, ready.0), all),
        if_false _ _ e ∙ match_from_empty b.hash_funcs 0 bytes (record b { filter = f }) ∙ found,
        λ other given.
            if_false _ _ e
            ∙ match_from_empty b.hash_funcs 0 other (record b { filter = f })
            ∙ match_from-Keeps b.hash_funcs 0 other b f ready.0 l keeps
                (match_open b other e given),
      )
]

-- The elements are inserted one after the other.
unfoldable pub insert_all : BloomFilter → List Bytes → Result BloomFilter
insert_all b [] = ok b
insert_all b (d ∷ ds) = do next ← insert b d; insert_all next ds

abbrev pub AllMatch : BloomFilter → List Bytes → Type 0
AllMatch b [] = Unit {0}
AllMatch b (d ∷ ds) = (match b d ≡ ok true) × AllMatch b ds

insert_all_lem :
    (b : BloomFilter) (ds : List Bytes)
    → IsReady b
    → (after : BloomFilter) × (insert_all b ds ≡ ok after)
      × ((other : Bytes) → match b other ≡ ok true → match after other ≡ ok true)
      × AllMatch after ds
unfolding insert_all
insert_all_lem b [] ready = (b, refl, λ other e. e, tt)
insert_all_lem b (d ∷ ds) ready =
    let (next, e, ready', found, keeps) = insert_lem b d ready in
    let (after, e', keeps', all) = insert_all_lem next ds ready' in
    (after, rw e e', λ other m. keeps' other (keeps other m), (keeps' d found, all))

zeros_lem : (n : ℕ) → AllBytes (zeros n) × (length (zeros n) ≡ n)
unfolding zeros
zeros_lem zero = (tt, refl)
zeros_lem (suc n) = let (all, l) = zeros_lem n in ((omega arith, all), ap suc l)

-- For at least one element and at least 8 bits, set gives a filter into which every sequence of
-- elements can be inserted, and behind the last insertion each of them matches, whatever hash
-- functions and tweak: the filter has no false negatives.
pub insert_all-AllMatch :
    (bits : ℕ) (funcs : ℕ → ℕ) (elements tweak flags : ℕ) (ds : List Bytes)
    → 8 ≤ bits
    → 0 < elements
    → (b : BloomFilter) × (after : BloomFilter) × (set bits funcs elements tweak flags ≡ ok b)
      × (insert_all b ds ≡ ok after)
      × AllMatch after ds
unfolding set
insert_all-AllMatch bits funcs elements tweak flags ds hb he =
    let size = min bits 288000 / 8 in
    let (all, l) = zeros_lem size in
    let b : BloomFilter = record {
      is_set = true;
      filter = zeros size;
      full = false;
      empty = false;
      hash_funcs = min (funcs (size * 8 / elements)) 50;
      tweak = tweak;
      flags = flags;
    } in
    let (after, e, _, found) = insert_all_lem b ds (omega (arith, l), all) in
    (b, after, rw (==-false elements 0 he) refl, e, found)
