-- ===== src/Vault/Pool/Relabel.antt =====
-- Giving a row of a bin another status.
use coin_vault.Common.{
  Bytes, length, le_cases, ℕ, suc, ◌+◌, ◌^◌, ◌≤◌, ◌<◌, max, ◌≡◌, refl, ap, ◌≢◌, inl, inr, false,
  List, [], ◌∷◌, arith, ◌==◌, Bool-cases, ltb-true, leb-true, leb-false,
}
use coin_vault.Vault.Scripts.{
  ScriptStatus, none_of, unused, change, issued, used, is_unused, script_code, SigningScript,
  AccountBin, mark_issued, set_status,
}
use coin_vault.Vault.Pool.{Pool, relabel, put_status}
use coin_vault.Vault.Pool.Rows.{Numbered, frontier}
use coin_vault.Vault.Pool.Refill.{IsWellFormed}

length-relabel :
    (i : ℕ) (label : Bytes) (status : ScriptStatus) (ss : List SigningScript)
    → length (relabel i label status ss) ≡ length ss
unfolding relabel
length-relabel i label status [] = refl
length-relabel i label status (s ∷ ss) = ap suc (length-relabel i label status ss)

Numbered-relabel :
    (i : ℕ) (label : Bytes) (status : ScriptStatus) (n : ℕ) (ss : List SigningScript)
    → Numbered n ss
    → Numbered n (relabel i label status ss)
unfolding relabel
Numbered-relabel i label status n [] v = tt
Numbered-relabel i label status n (s ∷ ss) v = (
  elim (Bool-cases (s.index == i)) [ inl e ↦ rw e v.0 | inr e ↦ rw e v.0 ],
  Numbered-relabel i label status (suc n) ss v.1,
)

-- A row behind the index stays as it is.
relabel_behind :
    (i : ℕ) (label : Bytes) (status : ScriptStatus) (n : ℕ) (ss : List SigningScript)
    → Numbered n ss
    → i < n
    → relabel i label status ss ≡ ss
unfolding relabel
relabel_behind i label status n [] v h = refl
relabel_behind i label status n (s ∷ ss) v h =
    rw (other, relabel_behind i label status (suc n) ss v.1 (omega arith)) refl
  where
    other : (s.index == i) ≡ false
    other = ground (arith, v.0)

frontier-relabel :
    (i : ℕ) (label : Bytes) (status : ScriptStatus) (n : ℕ) (ss : List SigningScript)
    → is_unused status ≡ false
    → Numbered n ss
    → n ≤ i
    → i < n + length ss
    → frontier (relabel i label status ss) ≡ max (suc i) (frontier ss)
unfolding relabel frontier
frontier-relabel i label status n [] taken v low high = absurd (omega arith)
frontier-relabel i label status n (s ∷ ss) taken v low high = elim (Bool-cases (s.index == i)) [
  | inl e ↦
      let here : s.index ≡ i = ground arith in
      rw (e, taken, relabel_behind i label status (suc n) ss v.1 (omega (arith, v.0)))
        (elim (Bool-cases (is_unused s.status)) [
          | inl u ↦ rw u (omega arith)
          | inr u ↦ rw u (omega arith)
        ])
  | inr e ↦
      let ne : s.index ≢ i = λ same. ground (arith, same) in
      let ih =
        frontier-relabel i label status (suc n) ss taken v.1 (ground (arith, v.0)) (omega arith) in
      rw e (elim (Bool-cases (is_unused s.status)) [
        | inl u ↦ rw u ih
        | inr u ↦ rw (u, ih) (omega arith)
      ])
]

-- The bin counts an index as issued.
pub mark_issued_lem :
    (i : ℕ) (bin : AccountBin)
    → i + 1 < 2 ^ 32
    → mark_issued i bin ≡ record bin { next_script_index = max (suc i) bin.next_script_index }
unfolding mark_issued
mark_issued_lem i bin h = elim (le_cases bin.next_script_index i) [
  | inl low ↦ rw (leb-true bin.next_script_index i low) (with_next (omega arith))
  | inr high ↦ rw (leb-false bin.next_script_index i high) (with_next (omega arith))
]
  where
    with_next :
        {n m : ℕ}
        → n ≡ m
        → record bin { next_script_index = n } ≡ record bin { next_script_index = m }
    with_next e = ap (λ (k : ℕ). record bin { next_script_index = k }) e

taken_status : (status : ScriptStatus) → 1 < script_code status → is_unused status ≡ false
taken_status none_of h = refl
taken_status unused h = absurd (omega arith)
taken_status change h = refl
taken_status issued h = refl
taken_status used h = refl

-- A row that gets a status behind UNUSED while the bin is told keeps the bin well formed.
pub relabel-IsWellFormed :
    (p : Pool) (index : ℕ) (label : Bytes) (status : ScriptStatus)
    → IsWellFormed p
    → 1 < script_code status
    → index < p.bin.script_count
    → p.bin.script_count < 2 ^ 32
    → IsWellFormed
        (record p { bin = mark_issued index p.bin; scripts = relabel index label status p.scripts })
relabel-IsWellFormed p index label status w above inside small =
    rw (mark_issued_lem index p.bin (omega arith)) (record {
      numbered = Numbered-relabel index label status 0 p.scripts w.numbered;
      counted = omega (arith, w.counted, length-relabel index label status p.scripts);
      next = omega (
        arith,
        w.next,
        frontier-relabel index label status 0 p.scripts (taken_status status above) w.numbered
            (omega arith) (omega (arith, w.counted)),
      );
    })

pub put_status-IsWellFormed :
    (p : Pool) (script : SigningScript) (status : ScriptStatus)
    → IsWellFormed p
    → 1 < script_code status
    → script.index < p.bin.script_count
    → p.bin.script_count < 2 ^ 32
    → IsWellFormed (put_status script status p)
      × ((put_status script status p).bin.script_count ≡ p.bin.script_count)
      × ((put_status script status p).bin.minsigs ≡ p.bin.minsigs)
unfolding put_status set_status
put_status-IsWellFormed p script status w above inside small =
    rw (ltb-true 1 (script_code status) above) (
      relabel-IsWellFormed p script.index script.label status w above inside small,
      rw (mark_issued_lem script.index p.bin (omega arith)) refl,
      rw (mark_issued_lem script.index p.bin (omega arith)) refl,
    )
