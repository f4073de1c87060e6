-- ===== src/Script/Object/Signatures/Laws.antt =====
-- What the operations on signatures do to the number of signatures that are present.
use coin_vault.Common.{
  Bytes, length, ℕ, zero, suc, ◌+◌, ◌-◌, ◌^◌, ◌≤◌, ◌<◌, ◌≡◌, refl, not, List, [], ◌∷◌, arith, ◌==◌,
  if◌then◌else◌, throw_if, >>=-eq-ok, different_type, different_minimum, different_keys,
  different_sig_count, ok,
}
use coin_vault.Script.Object.{Script, is_empty, blanks}
use coin_vault.Script.Object.Signatures.{
  count_down, sigs_needed, clear_sigs, merge_sigs, mergesigs, kind_code, keys_eq,
}

-- How many signatures are present.
abbrev pub present : List Bytes → ℕ
present [] = 0
present (sig ∷ sigs) = (if is_empty sig then 0 else 1) + present sigs

count_down_lem :
    (needed : ℕ) (sigs : List Bytes)
    → 1 ≤ needed
    → needed < 2 ^ 32
    → count_down needed sigs ≡ needed - present sigs
unfolding count_down
count_down_lem needed [] lo hi = omega arith
count_down_lem needed ([] ∷ sigs) lo hi = ground (arith, count_down_lem needed sigs)
count_down_lem needed ((b ∷ bs) ∷ sigs) lo hi = ground (arith, count_down_lem (needed - 1) sigs)

-- For a minimum from 1 to 2^32 - 1, sigsneeded is the minimum less the number of signatures that
-- are present, and 0 when more are present.
pub sigs_needed_lem :
    (s : Script) → 1 ≤ s.minsigs → s.minsigs < 2 ^ 32 → sigs_needed s ≡ s.minsigs - present s.sigs
unfolding sigs_needed
sigs_needed_lem s lo hi = count_down_lem s.minsigs s.sigs lo hi

merge_sigs_lem :
    (sigs others : List Bytes)
    → length sigs ≡ length others
    → present (merge_sigs sigs others).0 ≡ present sigs + (merge_sigs sigs others).1
unfolding merge_sigs
merge_sigs_lem [] others e = refl
merge_sigs_lem (sig ∷ sigs) [] e = absurd (omega arith)
merge_sigs_lem (sig ∷ sigs) (other ∷ others) e = ground (arith, merge_sigs_lem sigs others)

merge_sigs_twice :
    (sigs others : List Bytes)
    → merge_sigs (merge_sigs sigs others).0 others ≡ ((merge_sigs sigs others).0, 0)
unfolding merge_sigs
merge_sigs_twice [] others = refl
merge_sigs_twice (sig ∷ sigs) [] = refl
merge_sigs_twice (sig ∷ sigs) (other ∷ others) = ground (arith, merge_sigs_twice sigs others)

length-merge_sigs : (sigs others : List Bytes) → length (merge_sigs sigs others).0 ≡ length sigs
unfolding merge_sigs
length-merge_sigs [] others = refl
length-merge_sigs (sig ∷ sigs) [] = refl
length-merge_sigs (sig ∷ sigs) (other ∷ others) = ground (arith, length-merge_sigs sigs others)

abbrev merged : Script → Script → Script
merged s other = record s { sigs = (merge_sigs s.sigs other.sigs).0 }

-- What a successful merge has tested and returned.
mergesigs_ok :
    (s other s' : Script) (added : ℕ)
    → mergesigs s other ≡ ok (s', added)
    → (length s.sigs ≡ length other.sigs)
      × (merged s other ≡ s')
      × ((merge_sigs s.sigs other.sigs).1 ≡ added)
      × (mergesigs (merged s other) other ≡ ok (merged s other, 0))
unfolding mergesigs
mergesigs_ok s other s' added h =
    let (_, g1, h1) =
      >>=-eq-ok (throw_if (not (kind_code s.kind == kind_code other.kind)) different_type) _ h in
    let (_, g2, h2) =
      >>=-eq-ok (throw_if (not (s.minsigs == other.minsigs)) different_minimum) _ h1 in
    let (_, g3, h3) =
      >>=-eq-ok (throw_if (not (keys_eq s.pubkeys other.pubkeys)) different_keys) _ h2 in
    let (_, g4, final) =
      >>=-eq-ok (throw_if (not (length s.sigs == length other.sigs)) different_sig_count) _ h3 in
    let same : length s.sigs ≡ length other.sigs = ground (arith, g4) in
    (
      same,
      ground (arith, final),
      ground (arith, final),
      rw (g1, g2, g3, length-merge_sigs s.sigs other.sigs, g4, merge_sigs_twice s.sigs other.sigs)
          refl,
    )

-- When mergesigs returns a number, exactly that many more signatures are present than before, and
-- merging the same other script once more returns 0 and changes nothing.
pub mergesigs_lem :
    (s other s' : Script) (added : ℕ)
    → mergesigs s other ≡ ok (s', added)
    → (present s'.sigs ≡ present s.sigs + added) × (mergesigs s' other ≡ ok (s', 0))
mergesigs_lem s other s' added h =
    let (same, state, count, again) = mergesigs_ok s other s' added h in
    (rw (← state, ← count) (merge_sigs_lem s.sigs other.sigs same), rw (← state) again)

-- `clearSigs` leaves a placeholder for each key, so that the whole minimum is needed again.
present-blanks : (n : ℕ) → (present (blanks n) ≡ 0) × (length (blanks n) ≡ n)
unfolding blanks
present-blanks zero = (refl, refl)
present-blanks (suc n) = (omega (arith, present-blanks n), omega (arith, present-blanks n))

-- For a minimum from 1 to 2^32 - 1, after clearSigs the script has one slot for each key and
-- sigsneeded is the whole minimum.
pub sigs_needed-clear_sigs :
    (s : Script)
    → 1 ≤ s.minsigs
    → s.minsigs < 2 ^ 32
    → (sigs_needed (clear_sigs s) ≡ s.minsigs) × (length (clear_sigs s).sigs ≡ length s.pubkeys)
unfolding clear_sigs
sigs_needed-clear_sigs s lo hi =
    let (none_left, slots) = present-blanks (length s.pubkeys) in
    (omega (arith, sigs_needed_lem (clear_sigs s) lo hi, none_left), slots)
