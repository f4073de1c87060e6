-- ===== src/Vault/Insert/Scripts.antt =====
-- The scripts of a stored transaction when another copy of it arrives: copy_scripts and merge_inputs
-- of Vault.Insert.
use coin_vault.Common.{
  Bytes, ℕ, ◌≡◌, refl, sym, ap, ◌∙◌, inl, inr, Bool, true, false, ◌||◌, List, [], ◌∷◌, ◌++◌, ltb,
  if◌then◌else◌, if_cases, Result, ◌>>=◌, >>=-eq-ok, ok-injective, ok,
}
use coin_vault.Vault.Inputs.{TxIn}
use coin_vault.Script.Object.{Script, edit, txinscript}
use coin_vault.Script.Object.Parse.{parse}
use coin_vault.Script.Object.Signatures.{mergesigs}
use coin_vault.Vault.Insert.{copy_scripts, merge_script, merge_inputs}

abbrev pub scripts_of : List TxIn → List Bytes
scripts_of [] = []
scripts_of (t ∷ ts) = t.script ∷ scripts_of ts

-- The inputs without their scripts.
abbrev pub bare : List TxIn → List TxIn
bare [] = []
bare (t ∷ ts) = record t { script = [] } ∷ bare ts

-- The scripts are those of the other inputs, in their order, and nothing else changes.
pub copy_scripts_lem :
    (ts others : List TxIn) {after : List TxIn}
    → copy_scripts ts others ≡ ok after
    → (rest : List Bytes) × (scripts_of others ≡ scripts_of after ++ rest) × (bare after ≡ bare ts)
unfolding copy_scripts
copy_scripts_lem [] others returns =
    (scripts_of others, rw (← ok-injective returns) refl, rw (← ok-injective returns) refl)
copy_scripts_lem (t ∷ ts) [] returns = cc
copy_scripts_lem (t ∷ ts) (other ∷ others) returns =
    let (later, copied, result) =
      >>=-eq-ok (copy_scripts ts others)
        (λ (later : List TxIn). ok (record t { script = other.script } ∷ later)) returns in
    let (rest, scripts, same) = copy_scripts_lem ts others copied in
    (
      rest,
      rw (← ok-injective result) (ap (λ (ss : List Bytes). other.script ∷ ss) scripts),
      rw (← ok-injective result) (ap (λ (ts' : List TxIn). record t { script = [] } ∷ ts') same),
    )

-- Merging changes nothing but scripts, and without a new signature nothing.
abbrev pub Merged : List TxIn → List TxIn × Bool → Type 0
Merged ts (after, updated) = (bare after ≡ bare ts) × ((updated ≡ false) → after ≡ ts)

module _ (hash160 : Bytes → Bytes) (garbage : ℕ) where
  merge_script_same :
      (script other : Bytes) {after : Bytes}
      → merge_script hash160 garbage script other ≡ ok (after, false)
      → after ≡ script
  unfolding merge_script
  merge_script_same script other returns =
      let (stored, _, rest) =
        >>=-eq-ok (parse hash160 garbage script)
          (λ (stored : Script). do
            received ← parse hash160 garbage other
            (merged, added) ← mergesigs stored received
            written stored merged added)
          returns in
      let (received, _, rest') =
        >>=-eq-ok (parse hash160 garbage other)
          (λ (received : Script). do
            (merged, added) ← mergesigs stored received
            written stored merged added)
          rest in
      let ((merged, added), _, last) =
        >>=-eq-ok (mergesigs stored received) (λ (q : Script × ℕ). written stored q.0 q.1) rest' in
      elim (if_cases (ltb 0 added) last) [
        | inr (_, kept) ↦ sym (ap (λ (q : Bytes × Bool). q.0) (ok-injective kept))
        | inl (_, new) ↦
            let (bytes, _, result) =
              >>=-eq-ok (txinscript edit merged) (λ (bytes : Bytes). ok (bytes, true)) new in
            let f : true ≡ false = ap (λ (q : Bytes × Bool). q.1) (ok-injective result) in cc f
      ]
    where
      written : Script → Script → ℕ → Result (Bytes × Bool)
      written stored merged added =
          if ltb 0 added
          then (txinscript edit merged >>= λ bytes. ok (bytes, true))
          else ok (script, false)

  pub merge_inputs_lem :
      (ts others : List TxIn) (p : List TxIn × Bool)
      → merge_inputs hash160 garbage ts others ≡ ok p
      → Merged ts p
  unfolding merge_inputs
  merge_inputs_lem [] others p returns = rw (← ok-injective returns) (refl, λ e. refl)
  merge_inputs_lem (t ∷ ts) [] p returns = cc
  merge_inputs_lem (t ∷ ts) (other ∷ others) p returns =
      let ((script, changed), merged, rest) =
        >>=-eq-ok (merge_script hash160 garbage t.script other.script)
          (λ (q : Bytes × Bool). do
            (later, more) ← merge_inputs hash160 garbage ts others
            ok (record t { script = q.0 } ∷ later, q.1 || more))
          returns in
      let ((later, more), others_merged, result) =
        >>=-eq-ok (merge_inputs hash160 garbage ts others)
          (λ (q : List TxIn × Bool). ok (record t { script = script } ∷ q.0, changed || q.1))
          rest in
      let (same, unchanged) = merge_inputs_lem ts others (later, more) others_merged in
      rw (← ok-injective result) (
        ap (λ (ts' : List TxIn). record t { script = [] } ∷ ts') same,
        λ e. whole script changed more later e merged unchanged,
      )
    where
      whole :
          (script : Bytes) (changed more : Bool) (later : List TxIn)
          → (changed || more) ≡ false
          → merge_script hash160 garbage t.script other.script ≡ ok (script, changed)
          → (more ≡ false → later ≡ ts)
          → record t { script = script } ∷ later ≡ t ∷ ts
      whole script true more later e merged unchanged = cc
      whole script false more later e merged unchanged =
          let s = merge_script_same t.script other.script merged in
          ap (λ (b : Bytes). record t { script = b } ∷ later) s
          ∙ ap (λ (ts' : List TxIn). t ∷ ts') (unchanged e)
