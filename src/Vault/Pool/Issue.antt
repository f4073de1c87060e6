-- ===== src/Vault/Pool/Issue.antt =====
-- Issuing a signing script: issueAccountBinSigningScript_unwrapped of CoinDB/src/Vault.cpp.
use coin_vault.Common.{
  Bytes, ℕ, ◌+◌, ◌*◌, ◌^◌, ◌≤◌, ◌<◌, ◌≡◌, refl, ap, ◌∙◌, some, List, arith, Result, ok,
}
use coin_vault.Vault.Scripts.{issued, AccountBin, mark_issued}
use coin_vault.Vault.Scripts.Make.{DerivesKeys}
use coin_vault.Vault.Pool.{
  Pool, unused_pool_size, count_unused, first_unused, relabel, refill, hand_out, try_refill, issue,
}
use coin_vault.Vault.Pool.Rows.{Filled, first_unused_lem, frontier-count_unused}
use coin_vault.Vault.Pool.Gaps.{mark_known}
use coin_vault.Vault.Pool.Refill.{IsWellFormed, Refilled, refill_lem}
use coin_vault.Vault.Pool.Relabel.{mark_issued_lem, relabel-IsWellFormed}

-- Telling the bin twice is telling it once.
mark_twice :
    (i : ℕ) (bin : AccountBin)
    → i + 1 < 2 ^ 32
    → mark_issued i (mark_issued i bin) ≡ mark_issued i bin
mark_twice i bin h = mark_known i (mark_issued i bin) (rw (mark_issued_lem i bin h) (omega arith))

abbrev pub handed : ℕ → Bytes → Pool → Pool
handed index label p = record p {
  bin = mark_issued index p.bin;
  scripts = relabel index label issued p.scripts;
}

-- From a pool without gaps in which a script is unused, the script at the next index is handed out.
hand_out_next :
    (label : Bytes) (p : Pool)
    → IsWellFormed p
    → Filled p.scripts
    → 0 < count_unused p.scripts
    → p.bin.script_count < 2 ^ 32
    → (hand_out (first_unused p.scripts) label p
        ≡ ok (handed p.bin.next_script_index label p, p.bin.next_script_index))
      × IsWellFormed (handed p.bin.next_script_index label p)
      × (mark_issued p.bin.next_script_index p.bin
          ≡ record p.bin { next_script_index = p.bin.next_script_index + 1 })
unfolding hand_out
hand_out_next label p w f some_unused small = (
  rw (first, mark_twice p.bin.next_script_index p.bin (omega (arith, room))) refl,
  relabel-IsWellFormed p p.bin.next_script_index label issued w (omega arith) (omega (arith, room))
      small,
  mark_issued_lem p.bin.next_script_index p.bin (omega (arith, room))
      ∙ ap (λ (k : ℕ). record p.bin { next_script_index = k }) (omega arith),
)
  where
    room : p.bin.next_script_index < p.bin.script_count
    room =
        omega (arith, w.next, w.counted, frontier-count_unused 0 p.scripts w.numbered f some_unused)

    first : first_unused p.scripts ≡ some p.bin.next_script_index
    first =
        first_unused_lem 0 p.scripts w.numbered f some_unused
        ∙ ap (λ (k : ℕ). some k) (omega (arith, w.next))

module _ (hash160 : Bytes → Bytes) (signing_keys : ℕ → Result (List Bytes))
    (unlock : Result (Unit {0})) where
  -- Behind the first refilling: the next script is handed out and the pool is refilled again.
  hand_out-Refilled :
      (label : Bytes) (p ready : Pool) {first limit : ℕ}
      → unlock ≡ ok tt
      → DerivesKeys signing_keys first limit p.bin.minsigs
      → first ≤ p.bin.script_count
      → p.bin.script_count + 2 * unused_pool_size p.account_pool_size ≤ limit
      → 1 ≤ unused_pool_size p.account_pool_size
      → Refilled hash160 signing_keys p ready
      → (full : Pool) × (hand_out (first_unused ready.scripts) label ready
          ≡ ok (handed ready.bin.next_script_index label ready, p.bin.next_script_index))
        × (refill hash160 signing_keys unlock (handed ready.bin.next_script_index label ready)
            ≡ ok full)
        × IsWellFormed full
        × (full.bin.next_script_index ≡ p.bin.next_script_index + 1)
        × (unused_pool_size p.account_pool_size ≤ count_unused full.scripts)
        × (full.bin.minsigs ≡ p.bin.minsigs)
  hand_out-Refilled label p ready {first} {limit} unlocked d low fits some_size r =
      let (out, w, marked) =
        hand_out_next label ready r.well_formed r.filled (omega (arith, r.full))
          (omega (arith, r.longer, d.inside)) in
      let d' : DerivesKeys signing_keys first limit
          (mark_issued ready.bin.next_script_index ready.bin).minsigs =
        rw (marked, r.same_minsigs) d in
      let small : (mark_issued ready.bin.next_script_index ready.bin).script_count
            + unused_pool_size ready.account_pool_size
          ≤ limit =
        rw (marked, r.same_size) (omega (arith, r.longer)) in
      let (full, again, r') =
        refill_lem hash160 signing_keys unlock (handed ready.bin.next_script_index label ready)
          unlocked w d' (rw marked (omega (arith, r.kept))) small in
      (
        full,
        out ∙ ap (λ (k : ℕ). ok (handed ready.bin.next_script_index label ready, k)) r.same_next,
        again,
        r'.well_formed,
        r'.same_next ∙ (rw marked (omega (arith, r.same_next))),
        omega (arith, r'.full, ap unused_pool_size r.same_size),
        r'.same_minsigs ∙ (ap (λ (b : AccountBin). b.minsigs) marked ∙ r.same_minsigs),
      )

  -- For a well-formed bin whose scripts carry the indices from 0 on, whose next index is one more
  -- than the largest index of a script that is not unused, whose keychains derive at least
  -- minsigs, of at least 1, and at most 15 keys for each index from some first one, not above the
  -- count of scripts, up to a limit below 2^32 (a public key derives none from 2^31 on), with room
  -- for twice the pool size between the count and the limit, a pool size of at least 1 and chain
  -- codes that unlock, issueAccountBinSigningScript_unwrapped succeeds: it issues the script at
  -- the next index, moves the next index on by exactly one, so that no script is issued twice, and
  -- leaves the bin well formed with its minimum of signatures as before and at least as many
  -- unused scripts as the pool size.
  pub issue_lem :
      (label : Bytes) (p : Pool) {first limit : ℕ}
      → unlock ≡ ok tt
      → IsWellFormed p
      → DerivesKeys signing_keys first limit p.bin.minsigs
      → first ≤ p.bin.script_count
      → p.bin.script_count + 2 * unused_pool_size p.account_pool_size ≤ limit
      → 1 ≤ unused_pool_size p.account_pool_size
      → (after : Pool) × (issue hash160 signing_keys unlock label p
          ≡ ok (after, p.bin.next_script_index))
        × IsWellFormed after
        × (after.bin.next_script_index ≡ p.bin.next_script_index + 1)
        × (unused_pool_size p.account_pool_size ≤ count_unused after.scripts)
        × (after.bin.minsigs ≡ p.bin.minsigs)
  unfolding issue try_refill
  issue_lem label p unlocked w d low fits some_size =
      let (ready, refilled, r) =
        refill_lem hash160 signing_keys unlock p unlocked w d low (omega arith) in
      let (full, out, again, w', next, many, minsigs) =
        hand_out-Refilled label p ready unlocked d low fits some_size r in
      (full, rw (refilled, out, again) refl, w', next, many, minsigs)
