-- ===== src/Script/Object/Signatures/Added.antt =====
-- Which signature slot `addSig` of class Script fills.
use coin_vault.Common.{
  Bytes, bytes_eq_refl, bytes_eq-true, at, bytes_eq, ℕ, zero, suc, ◌+◌, ◌≤◌, ◌≡◌, refl, sym, ap,
  ◌∙◌, inl, inr, Bool, true, false, List, [], ◌∷◌, arith, ltb, if◌then◌else◌, if_cases, ◌>>=◌,
  >>=-eq-ok, ok-injective, ok,
}
use mathlib.Core.Path.{subst}
use coin_vault.Script.Object.{Script, is_empty}
use coin_vault.Script.Object.Signatures.{insert_sig, add_sig}
use coin_vault.Script.Object.Signatures.Laws.{present}

-- The signatures in front of a slot.
abbrev pub present_before : ℕ → List Bytes → ℕ
present_before k [] = 0
present_before zero (sig ∷ sigs) = 0
present_before (suc k) (sig ∷ sigs) = (if is_empty sig then 0 else 1) + present_before k sigs

abbrev pub put_at : ℕ → Bytes → List Bytes → List Bytes
put_at k new [] = []
put_at zero new (sig ∷ sigs) = new ∷ sigs
put_at (suc k) new (sig ∷ sigs) = sig ∷ put_at k new sigs

-- Slot `k` is blank, it belongs to the key, and no more signatures than the minimum stand in front
-- of it. `i` slots with `nsigs` signatures have been passed before the list.
pub record IsFree (minsigs : ℕ) (pubkeys : List Bytes) (pubkey : Bytes) (i nsigs : ℕ)
    (sigs : List Bytes) (k : ℕ) : Type 0 where
  pub blank : at sigs k ≡ ok []
  pub key : at pubkeys (i + k) ≡ ok pubkey
  pub reached : nsigs + present_before k sigs ≤ minsigs

-- The signature is put into the first free slot if there is one, and else nothing changes.
abbrev pub Placed : ℕ → List Bytes → Bytes → Bytes → ℕ → ℕ → List Bytes → List Bytes → Bool → Type 0
Placed minsigs pubkeys pubkey sig i nsigs sigs later true =
    (k : ℕ) × IsFree minsigs pubkeys pubkey i nsigs sigs k
    × (later ≡ put_at k sig sigs)
    × ((j : ℕ) → IsFree minsigs pubkeys pubkey i nsigs sigs j → k ≤ j)
Placed minsigs pubkeys pubkey sig i nsigs sigs later false =
    (later ≡ sigs) × ((j : ℕ) → ¬ IsFree minsigs pubkeys pubkey i nsigs sigs j)

module _ (minsigs : ℕ) (pubkeys : List Bytes) (pubkey : Bytes) where
  abbrev Free : ℕ → ℕ → List Bytes → ℕ → Type 0
  Free = IsFree minsigs pubkeys pubkey

  -- One slot further on, behind a slot that counts as `one`.
  later-Free :
      (i nsigs k : ℕ) (one : ℕ) (sig : Bytes) (sigs : List Bytes)
      → one ≡ (if is_empty sig then 0 else 1)
      → Free (i + 1) (nsigs + one) sigs k
      → Free i nsigs (sig ∷ sigs) (suc k)
  unfolding at
  later-Free i nsigs k one sig sigs e free = record {
    blank = free.blank;
    key = ap (λ (n : ℕ). at pubkeys n) (omega arith) ∙ free.key;
    reached = omega (arith, free.reached);
  }

  earlier-Free :
      (i nsigs k : ℕ) (one : ℕ) (sig : Bytes) (sigs : List Bytes)
      → one ≡ (if is_empty sig then 0 else 1)
      → Free i nsigs (sig ∷ sigs) (suc k)
      → Free (i + 1) (nsigs + one) sigs k
  unfolding at
  earlier-Free i nsigs k one sig sigs e free = record {
    blank = free.blank;
    key = ap (λ (n : ℕ). at pubkeys n) (omega arith) ∙ free.key;
    reached = omega (arith, free.reached);
  }

  -- A slot that is not free, with what the loop does behind it.
  pass :
      (sig new : Bytes) (i nsigs : ℕ) (one : ℕ) (sigs later : List Bytes) (added : Bool)
      → one ≡ (if is_empty sig then 0 else 1)
      → ¬ Free i nsigs (sig ∷ sigs) 0
      → Placed minsigs pubkeys pubkey new (i + 1) (nsigs + one) sigs later added
      → Placed minsigs pubkeys pubkey new i nsigs (sig ∷ sigs) (sig ∷ later) added
  pass sig new i nsigs one sigs later true e taken (k, free, same, first) = (
    suc k,
    later-Free i nsigs k one sig sigs e free,
    ap (λ (ss : List Bytes). sig ∷ ss) same,
    order,
  )
    where
      order : (j : ℕ) → Free i nsigs (sig ∷ sigs) j → suc k ≤ j
      order zero f = absurd (taken f)
      order (suc j) f = omega (arith, first j (earlier-Free i nsigs j one sig sigs e f))
  pass sig new i nsigs one sigs later false e taken (same, none_free) =
      (ap (λ (ss : List Bytes). sig ∷ ss) same, nowhere)
    where
      nowhere : (j : ℕ) → ¬ Free i nsigs (sig ∷ sigs) j
      nowhere zero f = taken f
      nowhere (suc j) f = none_free j (earlier-Free i nsigs j one sig sigs e f)

  insert_sig_lem :
      (sig : Bytes) (i nsigs : ℕ) (sigs : List Bytes) (p : List Bytes × Bool)
      → nsigs ≤ minsigs
      → insert_sig minsigs pubkeys pubkey sig i nsigs sigs ≡ ok p
      → Placed minsigs pubkeys pubkey sig i nsigs sigs p.0 p.1
  unfolding insert_sig at
  insert_sig_lem sig i nsigs [] p h returns =
      subst (λ (q : List Bytes × Bool). Placed minsigs pubkeys pubkey sig i nsigs [] q.0 q.1)
        (ok-injective returns) (refl, λ j f. cc f.blank)
  insert_sig_lem sig i nsigs ([] ∷ sigs) p h returns =
      let (key, read, branch) =
        >>=-eq-ok (at pubkeys i)
          (λ (key : Bytes).
            if bytes_eq key pubkey
            then ok (sig ∷ sigs, true)
            else (insert_sig minsigs pubkeys pubkey sig (i + 1) nsigs sigs >>= λ (later, added).
                ok ([] ∷ later, added)))
          returns in
      elim (if_cases (bytes_eq key pubkey) branch) [
        | inl (same, filled) ↦
            subst (placed i nsigs ([] ∷ sigs)) (ok-injective filled)
              (0, here key read same, refl, λ j f. omega arith)
        | inr (other, rest) ↦
            let ((later, added), inserted, result) =
              >>=-eq-ok (insert_sig minsigs pubkeys pubkey sig (i + 1) nsigs sigs)
                (λ (q : List Bytes × Bool). ok ([] ∷ q.0, q.1)) rest in
            let behind : placed (i + 1) (nsigs + 0) sigs (later, added) =
              subst (λ (n : ℕ). placed (i + 1) n sigs (later, added)) (omega arith)
                (insert_sig_lem sig (i + 1) nsigs sigs (later, added) h inserted) in
            subst (placed i nsigs ([] ∷ sigs)) (ok-injective result)
              (pass [] sig i nsigs 0 sigs later added refl (taken key read other) behind)
      ]
    where
      placed : ℕ → ℕ → List Bytes → List Bytes × Bool → Type 0
      placed i nsigs sigs q = Placed minsigs pubkeys pubkey sig i nsigs sigs q.0 q.1

      here :
          (key : Bytes)
          → at pubkeys i ≡ ok key
          → bytes_eq key pubkey ≡ true
          → Free i nsigs ([] ∷ sigs) 0
      here key read same = record {
        blank = refl;
        key =
            ap (λ (n : ℕ). at pubkeys n) (omega arith)
            ∙ read
            ∙ ap (λ (bs : Bytes). ok bs) (bytes_eq-true key pubkey same);
        reached = omega arith;
      }

      taken :
          (key : Bytes)
          → at pubkeys i ≡ ok key
          → bytes_eq key pubkey ≡ false
          → ¬ Free i nsigs ([] ∷ sigs) 0
      taken key read other f =
          let same : key ≡ pubkey =
            ok-injective (sym read ∙ ap (λ (n : ℕ). at pubkeys n) (omega arith) ∙ f.key) in
          let e : bytes_eq pubkey pubkey ≡ false =
            subst (λ (k : Bytes). bytes_eq k pubkey ≡ false) same other in
          let g : true ≡ false = sym (bytes_eq_refl pubkey) ∙ e in cc g
  insert_sig_lem sig i nsigs ((b ∷ bs) ∷ sigs) p h returns =
      elim (if_cases (ltb minsigs (nsigs + 1)) returns) [
        | inl (full, kept) ↦
            subst (placed i nsigs ((b ∷ bs) ∷ sigs)) (ok-injective kept) (refl, beyond full)
        | inr (room, rest) ↦
            let ((later, added), inserted, result) =
              >>=-eq-ok (insert_sig minsigs pubkeys pubkey sig (i + 1) (nsigs + 1) sigs)
                (λ (q : List Bytes × Bool). ok ((b ∷ bs) ∷ q.0, q.1)) rest in
            subst (placed i nsigs ((b ∷ bs) ∷ sigs)) (ok-injective result) (
              pass (b ∷ bs) sig i nsigs 1 sigs later added refl (λ f. cc f.blank)
                (insert_sig_lem sig (i + 1) (nsigs + 1) sigs (later, added) (ground arith)
                  inserted))
      ]
    where
      placed : ℕ → ℕ → List Bytes → List Bytes × Bool → Type 0
      placed i nsigs sigs q = Placed minsigs pubkeys pubkey sig i nsigs sigs q.0 q.1

      beyond : ltb minsigs (nsigs + 1) ≡ true → (j : ℕ) → ¬ Free i nsigs ((b ∷ bs) ∷ sigs) j
      beyond full zero f = cc f.blank
      beyond full (suc j) f = absurd (ground (arith, f.reached))

present-put_at :
    (k b : ℕ) (bs : Bytes) (sigs : List Bytes)
    → at sigs k ≡ ok []
    → present (put_at k (b ∷ bs) sigs) ≡ present sigs + 1
unfolding at
present-put_at k b bs [] blank = cc
present-put_at zero b bs (sig ∷ sigs) blank = rw (ok-injective blank) (omega arith)
present-put_at (suc k) b bs (sig ∷ sigs) blank = omega (arith, present-put_at k b bs sigs blank)

-- When addSig, called with a signature that is not empty, returns true, it has put the signature
-- into the first slot that is free, and one more signature is present; when it returns false, no
-- slot is free and nothing has changed. A slot is free when it is blank, its key is the one that
-- is given, and no more signatures than the minimum stand in front of it.
pub add_sig_lem :
    (s : Script) (pubkey : Bytes) (b : ℕ) (bs : Bytes) (s' : Script) (added : Bool)
    → add_sig s pubkey (b ∷ bs) ≡ ok (s', added)
    → (s' ≡ record s { sigs = s'.sigs })
      × Placed s.minsigs s.pubkeys pubkey (b ∷ bs) 0 0 s.sigs s'.sigs added
      × (present s'.sigs ≡ present s.sigs + (if added then 1 else 0))
unfolding add_sig
add_sig_lem s pubkey b bs s' added returns =
    let (q, inserted, result) =
      >>=-eq-ok (insert_sig s.minsigs s.pubkeys pubkey (b ∷ bs) 0 0 s.sigs)
        (λ (q : List Bytes × Bool). ok (record s { sigs = q.0 }, q.1)) returns in
    let placed =
      insert_sig_lem s.minsigs s.pubkeys pubkey (b ∷ bs) 0 0 s.sigs q (omega arith) inserted in
    subst
      (λ (r : Script × Bool).
        (r.0 ≡ record s { sigs = r.0.sigs })
        × Placed s.minsigs s.pubkeys pubkey (b ∷ bs) 0 0 s.sigs r.0.sigs r.1
        × (present r.0.sigs ≡ present s.sigs + (if r.1 then 1 else 0)))
      (ok-injective result) (refl, placed, counted q.0 q.1 placed)
  where
    counted :
        (later : List Bytes) (added : Bool)
        → Placed s.minsigs s.pubkeys pubkey (b ∷ bs) 0 0 s.sigs later added
        → present later ≡ present s.sigs + (if added then 1 else 0)
    counted later true (k, free, same, _) = rw same (present-put_at k b bs s.sigs free.blank)
    counted later false (same, _) = rw same (omega arith)
