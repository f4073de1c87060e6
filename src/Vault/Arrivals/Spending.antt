-- ===== src/Vault/Arrivals/Spending.antt =====
-- What the loop over the inputs of a new transaction (insertTx_unwrapped of CoinDB/src/Vault.cpp)
-- does to the outputs that inputs spend.
use coin_vault.Common.{
  Bytes, length, le_cases, at, ℕ, zero, suc, ◌+◌, ◌≤◌, ◌<◌, ◌≡◌, refl, ◌∙◌, ◌⊎◌, inl, inr, Bool,
  true, false, ◌&&◌, Option, none, some, List, [], ◌∷◌, arith, leb, ◌==◌, Bool-cases, ◌>>=◌,
  throw_if, >>=-eq-ok, ok-injective, outpoint_out_of_range, ok,
}
use mathlib.Core.Path.{subst}
use coin_vault.Vault.Inputs.{TxIn}
use coin_vault.Vault.Outputs.{TxOut, Spender, set_spent}
use coin_vault.Vault.DeleteTx.{Row, is_spent_by, spender_of, spender_at}
use coin_vault.Vault.DeleteTx.Counts.{one_if, count_outputs, count_spent, inputs_of, AllBelow}
use coin_vault.Vault.Arrivals.{
  Checked, put_spender, put_spender_at, spend_outpoint, connect_input, check_inputs, find_hash,
}

-- The inputs from `n` up to `k` of a transaction have come to spend an output each.
pub record Grown (id n k : ℕ) (rows after : List Row) : Type 0 where
  pub others : (j l : ℕ) → (j == id) ≡ false → count_spent j l after ≤ count_spent j l rows
  pub lower : (l : ℕ) → l < n → count_spent id l after ≤ count_spent id l rows
  pub upper : (l : ℕ) → k ≤ l → count_spent id l after ≤ count_spent id l rows
  pub once : (l : ℕ) → count_spent id l after ≤ count_spent id l rows + 1
  pub inputs : (j : ℕ) → inputs_of j after ≡ inputs_of j rows
  pub spenders :
      (j i : ℕ) (s : Spender)
      → spender_at j i after ≡ some s
      → (spender_at j i rows ≡ some s) ⊎ (s.tx ≡ id)
  pub below : (b : ℕ) → AllBelow b rows → AllBelow b after

Grown-refl : (id n k : ℕ) (rows : List Row) → Grown id n k rows rows
Grown-refl id n k rows = record {
  others = λ j l e. omega arith;
  lower = λ l h. omega arith;
  upper = λ l h. omega arith;
  once = λ l. omega arith;
  inputs = λ j. refl;
  spenders = λ j i s e. inl e;
  below = λ b h. h;
}

Grown-trans :
    (id n k : ℕ) (rows middle after : List Row)
    → n + 1 ≤ k
    → Grown id n (n + 1) rows middle
    → Grown id (n + 1) k middle after
    → Grown id n k rows after
Grown-trans id n k rows middle after h g g' = record {
  others = λ j l e. omega (arith, g.others j l e, g'.others j l e);
  lower = λ l low. omega (arith, g.lower l low, g'.lower l (omega arith));
  upper = λ l high. omega (arith, g.upper l (omega arith), g'.upper l high);
  once = λ l. elim (le_cases (n + 1) l) [
    | inl high ↦ omega (arith, g.upper l high, g'.once l)
    | inr low ↦ omega (arith, g.once l, g'.lower l low)
  ];
  inputs = λ j. g'.inputs j ∙ g.inputs j;
  spenders = λ j i s e. elim (g'.spenders j i s e) [
    | inl earlier ↦ g.spenders j i s earlier
    | inr new ↦ inr new
  ];
  below = λ b all. g'.below b (g.below b all);
}

count-put_spender :
    (j l i : ℕ) (s : Spender) (ts : List TxOut)
    → count_outputs j l (put_spender i s ts)
      ≤ count_outputs j l ts + one_if (is_spent_by j l (some s))
unfolding put_spender set_spent
count-put_spender j l i s [] = omega arith
count-put_spender j l zero s (t ∷ ts) = omega arith
count-put_spender j l (suc i) s (t ∷ ts) = omega (arith, count-put_spender j l i s ts)

count-put_spender_at :
    (j l id i : ℕ) (s : Spender) (rows : List Row)
    → count_spent j l (put_spender_at id i s rows)
      ≤ count_spent j l rows + one_if (is_spent_by j l (some s))
unfolding put_spender_at
count-put_spender_at j l id i s [] = omega arith
count-put_spender_at j l id i s (r ∷ rs) = elim (Bool-cases (r.id == id)) [
  | inl e ↦ rw e (omega (arith, count-put_spender j l i s r.tx.txouts))
  | inr e ↦ rw e (omega (arith, count-put_spender_at j l id i s rs))
]

inputs_of-put_spender_at :
    (j id i : ℕ) (s : Spender) (rows : List Row)
    → inputs_of j (put_spender_at id i s rows) ≡ inputs_of j rows
unfolding put_spender_at
inputs_of-put_spender_at j id i s [] = refl
inputs_of-put_spender_at j id i s (r ∷ rs) = elim (Bool-cases (r.id == id)) [
  | inl e ↦ rw e refl
  | inr e ↦ elim (Bool-cases (r.id == j)) [
    | inl here ↦ rw (e, here) refl
    | inr other ↦ rw (e, other) (inputs_of-put_spender_at j id i s rs)
  ]
]

spender_of-put_spender :
    (i' i : ℕ) (s : Spender) (ts : List TxOut) {s' : Spender}
    → spender_of i' (put_spender i s ts) ≡ some s'
    → (spender_of i' ts ≡ some s') ⊎ (s'.tx ≡ s.tx)
unfolding put_spender set_spent spender_of
spender_of-put_spender i' i s [] e = inl e
spender_of-put_spender zero zero s (t ∷ ts) e = inr (ground arith)
spender_of-put_spender (suc i') zero s (t ∷ ts) e = inl e
spender_of-put_spender zero (suc i) s (t ∷ ts) e = inl e
spender_of-put_spender (suc i') (suc i) s (t ∷ ts) e = spender_of-put_spender i' i s ts e

spender_at-put_spender_at :
    (j i' id i : ℕ) (s : Spender) (rows : List Row) {s' : Spender}
    → spender_at j i' (put_spender_at id i s rows) ≡ some s'
    → (spender_at j i' rows ≡ some s') ⊎ (s'.tx ≡ s.tx)
unfolding put_spender_at spender_at
spender_at-put_spender_at j i' id i s [] e = inl e
spender_at-put_spender_at j i' id i s (r ∷ rs) e = elim (Bool-cases (r.id == id)) [
  | inl here ↦ elim (Bool-cases (r.id == j)) [
    | inl same ↦ rw same (spender_of-put_spender i' i s r.tx.txouts (rw (here, same) at e))
    | inr other ↦ rw other (inl (rw (here, other) at e))
  ]
  | inr later ↦ elim (Bool-cases (r.id == j)) [
    | inl same ↦ rw same (inl (rw (later, same) at e))
    | inr other ↦ rw other (spender_at-put_spender_at j i' id i s rs (rw (later, other) at e))
  ]
]

put_spender_at-AllBelow :
    (b id i : ℕ) (s : Spender) (rows : List Row)
    → AllBelow b rows
    → AllBelow b (put_spender_at id i s rows)
unfolding put_spender_at
put_spender_at-AllBelow b id i s [] all = tt
put_spender_at-AllBelow b id i s (r ∷ rs) all = elim (Bool-cases (r.id == id)) [
  | inl e ↦ rw e all
  | inr e ↦ rw e (all.0, put_spender_at-AllBelow b id i s rs all.1)
]

apart_left : (a b : ℕ) (c : Bool) → (b == a) ≡ false → one_if (a == b && c) ≡ 0
apart_left a b c e = ground arith

apart_right : (a b : ℕ) (c : Bool) → (a == b) ≡ false → one_if (c && a == b) ≡ 0
apart_right a b true e = ground arith
apart_right a b false e = refl

at_most_one : (b : Bool) → one_if b ≤ 1
at_most_one true = omega arith
at_most_one false = omega arith

ne_test : (a b : ℕ) → (a < b) ⊎ (b < a) → (a == b) ≡ false
ne_test a b (inl h) = ground arith
ne_test a b (inr h) = ground arith

put_spender_at-Grown :
    (id row i : ℕ) (t : TxIn) (rows : List Row)
    → Grown id t.txindex
        (t.txindex + 1)
        rows
        (put_spender_at row i (record { tx = id; txin = t }) rows)
put_spender_at-Grown id row i t rows =
    let s : Spender = record { tx = id; txin = t } in
    let more = λ (j l : ℕ). count-put_spender_at j l row i s rows in
    record {
      others = λ j l e. omega (arith, more j l, apart_left id j (t.txindex == l) e);
      lower = λ l h.
          omega
            (arith, more id l, apart_right t.txindex l (id == id) (ne_test t.txindex l (inr h)));
      upper = λ l h. omega (
        arith,
        more id l,
        apart_right t.txindex l (id == id) (ne_test t.txindex l (inl (omega arith))),
      );
      once = λ l. omega (arith, more id l, at_most_one (is_spent_by id l (some s)));
      inputs = λ j. inputs_of-put_spender_at j row i s rows;
      spenders = λ j i' s' e. spender_at-put_spender_at j i' row i s rows e;
      below = λ b all. put_spender_at-AllBelow b row i s rows all;
    }

-- The inputs are numbered from a number on.
abbrev pub IsNumbered : ℕ → List TxIn → Type 0
IsNumbered n [] = Unit {0}
IsNumbered n (t ∷ ts) = (t.txindex ≡ n) × IsNumbered (n + 1) ts

spend_outpoint-Grown :
    (mine : Bool) (id n : ℕ) (t : TxIn) (r : Row) (out : TxOut) (c : Checked)
    → t.txindex ≡ n
    → Grown id n (n + 1) c.rows (spend_outpoint mine id t r out c).rows
unfolding spend_outpoint
spend_outpoint-Grown true id n t r out c e =
    subst (λ (m : ℕ). Grown id m (m + 1) c.rows (spend_outpoint true id t r out c).rows) e
      (put_spender_at-Grown id r.id t.outindex t c.rows)
spend_outpoint-Grown false id n t r out c e = Grown-refl id n (n + 1) c.rows

connect_input-Grown :
    (mine : Bytes → Bool) (id n : ℕ) (t : TxIn) (o : Option Row) (c : Checked) {after : Checked}
    → t.txindex ≡ n
    → connect_input mine id t o c ≡ ok after
    → Grown id n (n + 1) c.rows after.rows
unfolding connect_input
connect_input-Grown mine id n t none c e returns =
    rw (← ok-injective returns) (Grown-refl id n (n + 1) c.rows)
connect_input-Grown mine id n t (some r) c e returns =
    let (_, _, rest) =
      >>=-eq-ok (throw_if (leb (length r.tx.txouts) t.outindex) outpoint_out_of_range)
        (λ (done : Unit {0}). do
          out ← at r.tx.txouts t.outindex
          ok (spend_outpoint (mine out.script) id t r out c))
        returns in
    let (out, _, result) =
      >>=-eq-ok (at r.tx.txouts t.outindex)
        (λ (out : TxOut). ok (spend_outpoint (mine out.script) id t r out c)) rest in
    rw (← ok-injective result) (spend_outpoint-Grown (mine out.script) id n t r out c e)

-- The whole loop.
pub check_inputs-Grown :
    (mine : Bytes → Bool) (id n : ℕ) (ts : List TxIn) (c : Checked) {after : Checked}
    → IsNumbered n ts
    → check_inputs mine id ts c ≡ ok after
    → Grown id n (n + length ts) c.rows after.rows
unfolding check_inputs
check_inputs-Grown mine id n [] c numbered returns =
    rw (← ok-injective returns) (Grown-refl id n (n + 0) c.rows)
check_inputs-Grown mine id n (t ∷ ts) c {after} numbered returns =
    let (next, connected, rest) =
      >>=-eq-ok (connect_input mine id t (find_hash t.outhash c.rows) c)
        (λ (next : Checked). check_inputs mine id ts next) returns in
    let first =
      connect_input-Grown mine id n t (find_hash t.outhash c.rows) c numbered.0 connected in
    let later = check_inputs-Grown mine id (n + 1) ts next numbered.1 rest in
    let size : n + 1 + length ts ≡ n + suc (length ts) = omega arith in
    Grown-trans id n (n + suc (length ts)) c.rows next.rows after.rows (omega arith) first
      (rw size at later)
