-- ===== src/Vault/Pool/Refill.antt =====
-- Refilling the pool of a bin: refillAccountBinPool_unwrapped of CoinDB/src/Vault.cpp.
use coin_vault.Common.{
  Bytes, length, length-append, le_cases, u32, ℕ, zero, suc, ◌+◌, ◌-◌, ◌≤◌, ◌<◌, max, ◌≡◌, refl,
  sym, ◌∙◌, ◌⊎◌, inl, inr, true, List, [], ◌∷◌, ◌++◌, arith, ltb, if◌then◌else◌, ltb-true, Result,
  ok,
}
use coin_vault.Vault.Scripts.{unused, is_unused, SigningScript, AccountBin, new_signing_script}
use coin_vault.Vault.Scripts.Make.{DerivesKeys, make_script_lem}
use coin_vault.Vault.Pool.{
  Pool, unused_pool_size, max_index, count_unused, issue_below, add_scripts, refill,
}
use coin_vault.Vault.Pool.Rows.{
  Numbered, frontier, Filled, max_index_lem, Numbered-snoc, frontier-snoc, Filled-snoc,
  count_unused-snoc,
}
use coin_vault.Vault.Pool.Gaps.{
  issued_rows, issued_rows-zero, issue_below-issued_rows, issued_rows-Filled, frontier-issued_rows,
  Numbered-issued_rows, length-issued_rows,
}

-- The scripts of a bin carry the indices from 0 on, the bin counts them, and its next index is one
-- more than the largest index of a script that is not unused.
pub record IsWellFormed (p : Pool) : Type 0 where
  pub numbered : Numbered 0 p.scripts
  pub counted : p.bin.script_count ≡ length p.scripts
  pub next : p.bin.next_script_index ≡ frontier p.scripts

-- What adding scripts to a pool gives.
pub record Extends (n : ℕ) (before after : Pool) : Type 0 where
  pub well_formed : IsWellFormed after
  pub filled : Filled before.scripts → Filled after.scripts
  pub more_unused : count_unused after.scripts ≡ count_unused before.scripts + n
  pub same_frontier : frontier after.scripts ≡ frontier before.scripts
  pub longer : after.bin.script_count ≡ before.bin.script_count + n
  pub same_minsigs : after.bin.minsigs ≡ before.bin.minsigs
  pub same_size : after.account_pool_size ≡ before.account_pool_size

module _ (hash160 : Bytes → Bytes) (signing_keys : ℕ → Result (List Bytes)) where
  abbrev add : ℕ → Pool → Result Pool
  add = add_scripts hash160 signing_keys

  one_script :
      (p : Pool) {first limit : ℕ}
      → IsWellFormed p
      → DerivesKeys signing_keys first limit p.bin.minsigs
      → first ≤ p.bin.script_count
      → p.bin.script_count < limit
      → (s : SigningScript) × (bin : AccountBin) × (new_signing_script hash160 signing_keys [] p.bin
          ≡ ok (s, bin))
        × (bin.minsigs ≡ p.bin.minsigs)
        × Extends 1 p (record p { bin = bin; scripts = p.scripts ++ (s ∷ []) })
  unfolding new_signing_script
  one_script p w d low fits =
      let (s, made, index, status) =
        make_script_lem hash160 signing_keys p.bin p.bin.script_count [] unused d low fits in
      let new : is_unused s.status ≡ true = rw status refl in
      let count : u32 (p.bin.script_count + 1) ≡ p.bin.script_count + 1 = omega (arith, d.inside) in
      (
        s,
        record p.bin { script_count = u32 (p.bin.script_count + 1) },
        rw made refl,
        refl,
        record {
          well_formed = record {
            numbered = Numbered-snoc 0 p.scripts s w.numbered (omega (arith, index, w.counted));
            counted = omega (arith, count, w.counted, length-append p.scripts (s ∷ []));
            next = w.next ∙ sym (frontier-snoc p.scripts s new);
          };
          filled = λ f. Filled-snoc p.scripts s new f;
          more_unused = omega (arith, count_unused-snoc p.scripts s new);
          same_frontier = frontier-snoc p.scripts s new;
          longer = count;
          same_minsigs = refl;
          same_size = refl;
        },
      )

  pub add_scripts_lem :
      (n : ℕ) (p : Pool) {first limit : ℕ}
      → IsWellFormed p
      → DerivesKeys signing_keys first limit p.bin.minsigs
      → first ≤ p.bin.script_count
      → p.bin.script_count + n ≤ limit
      → (after : Pool) × (add n p ≡ ok after) × Extends n p after
  unfolding add_scripts
  add_scripts_lem zero p w d low fits = (
    p,
    refl,
    record {
      well_formed = w;
      filled = λ f. f;
      more_unused = omega arith;
      same_frontier = refl;
      longer = omega arith;
      same_minsigs = refl;
      same_size = refl;
    },
  )
  add_scripts_lem (suc n) p w d low fits =
      let (s, bin, made, minsigs, next) = one_script p w d low (omega arith) in
      let (after, added, rest) =
        add_scripts_lem n (record p { bin = bin; scripts = p.scripts ++ (s ∷ []) }) next.well_formed
          (rw (← minsigs) at d) (omega (arith, next.longer)) (omega (arith, next.longer)) in
      (
        after,
        rw made added,
        record {
          well_formed = rest.well_formed;
          filled = λ f. rest.filled (next.filled f);
          more_unused = omega (arith, next.more_unused, rest.more_unused);
          same_frontier = rest.same_frontier ∙ next.same_frontier;
          longer = omega (arith, next.longer, rest.longer);
          same_minsigs = rest.same_minsigs ∙ minsigs;
          same_size = rest.same_size;
        },
      )

  -- What refilling gives: no script in front of a used one is unused, and the pool is full.
  pub record Refilled (before after : Pool) : Type 0 where
    pub well_formed : IsWellFormed after
    pub filled : Filled after.scripts
    pub full : unused_pool_size before.account_pool_size ≤ count_unused after.scripts
    pub same_next : after.bin.next_script_index ≡ before.bin.next_script_index
    pub kept : before.bin.script_count ≤ after.bin.script_count
    pub longer :
        after.bin.script_count ≤ before.bin.script_count + unused_pool_size before.account_pool_size
    pub same_minsigs : after.bin.minsigs ≡ before.bin.minsigs
    pub same_size : after.account_pool_size ≡ before.account_pool_size

  abbrev closed_rows : Pool → List SigningScript
  closed_rows p = issued_rows (max_index p.scripts) p.scripts

  -- With the largest index in use the gaps are closed; index 0 alone leaves none.
  closed :
      (p : Pool)
      → IsWellFormed p
      → (if ltb 0 (max_index p.scripts)
          then issue_below (max_index p.scripts) p.scripts p.bin
          else (p.scripts, p.bin))
        ≡ (closed_rows p, p.bin)
  closed p w = elim (le_cases (max_index p.scripts) 0) [
    | inl h ↦
        let z : max_index p.scripts ≡ 0 = omega arith in rw (z, issued_rows-zero p.scripts) refl
    | inr h ↦
        rw (ltb-true 0 (max_index p.scripts) h)
          (issue_below-issued_rows (max_index p.scripts) p.scripts p.bin known)
  ]
    where
      known : max_index p.scripts ≤ p.bin.next_script_index
      known = omega (arith, max_index_lem p.scripts, w.next)

  -- The rows with the gaps closed still fit the bin.
  closed_facts :
      (p : Pool)
      → IsWellFormed p
      → IsWellFormed (record p { scripts = closed_rows p }) × Filled (closed_rows p)
  closed_facts p w = (
    record {
      numbered = Numbered-issued_rows largest 0 p.scripts w.numbered;
      counted = omega (arith, w.counted, length-issued_rows largest p.scripts);
      next = omega (arith, w.next, low, high, max_index_lem p.scripts);
    },
    issued_rows-Filled largest 0 p.scripts w.numbered ends,
  )
    where
      largest : ℕ
      largest = max_index p.scripts

      low : frontier p.scripts ≤ frontier (closed_rows p)
      low = (frontier-issued_rows largest p.scripts).0

      high : frontier (closed_rows p) ≤ max largest (frontier p.scripts)
      high = (frontier-issued_rows largest p.scripts).1

      ends : ((frontier p.scripts ≡ 0) × (largest ≤ 0)) ⊎ (frontier p.scripts ≡ suc largest)
      ends = elim (le_cases (frontier p.scripts) 0) [
        | inl h ↦ inl (omega arith, omega (arith, max_index_lem p.scripts))
        | inr h ↦ inr (omega (arith, max_index_lem p.scripts))
      ]

  pub refill_lem :
      (unlock : Result (Unit {0})) (p : Pool) {first limit : ℕ}
      → unlock ≡ ok tt
      → IsWellFormed p
      → DerivesKeys signing_keys first limit p.bin.minsigs
      → first ≤ p.bin.script_count
      → p.bin.script_count + unused_pool_size p.account_pool_size ≤ limit
      → (after : Pool) × (refill hash160 signing_keys unlock p ≡ ok after) × Refilled p after
  unfolding refill
  refill_lem unlock p unlocked w d low fits =
      let (well_formed, filled) = closed_facts p w in
      let (after, added, more) =
        add_scripts_lem missing (record p { scripts = closed_rows p }) well_formed d low
          (omega (arith, fits)) in
      (
        after,
        rw (unlocked, closed p w) added,
        record {
          well_formed = more.well_formed;
          filled = more.filled filled;
          full = omega (arith, more.more_unused);
          same_next = more.well_formed.next ∙ more.same_frontier ∙ sym well_formed.next;
          kept = omega (arith, more.longer);
          longer = omega (arith, more.longer);
          same_minsigs = more.same_minsigs;
          same_size = more.same_size;
        },
      )
    where
      missing : ℕ
      missing = unused_pool_size p.account_pool_size - count_unused (closed_rows p)
