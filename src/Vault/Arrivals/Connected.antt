-- ===== src/Vault/Arrivals/Connected.antt =====
-- What spends the outputs of the stored transactions, when a transaction is added to them
-- (insertTx_unwrapped of CoinDB/src/Vault.cpp).
use coin_vault.Common.{
  length, le_cases, ℕ, ◌+◌, ◌≤◌, ◌<◌, ◌≡◌, refl, sym, ap, ◌∙◌, inl, inr, true, false, none, some,
  List, [], ◌∷◌, arith, ◌==◌, if◌then◌else◌, Bool-cases, if_cases, ==-true,
}
use coin_vault.Vault.Inputs.{TxIn}
use coin_vault.Vault.Outputs.{Spender}
use coin_vault.Vault.Tx.{Tx}
use coin_vault.Vault.DeleteTx.{Row, spender_of, spender_at}
use coin_vault.Vault.DeleteTx.Counts.{AllBelow, count_outputs, count_spent, inputs_of, has_index}
use coin_vault.Vault.DeleteTx.Steps.{IsLinked}
use coin_vault.Vault.Arrivals.{Store}
use coin_vault.Vault.Arrivals.Spending.{Grown, IsNumbered}
use coin_vault.Vault.Arrivals.Outputs.{AllUnspent, AllUnspent-count, AllUnspent-spender_of}
use coin_vault.Vault.Arrivals.Links.{Kept}

-- What spends an output is an input of a stored transaction that came later, and spends no other
-- output.
pub record IsConnected (store : Store) : Type 0 where
  pub linked : IsLinked store.rows
  pub below : AllBelow store.next_id store.rows
  pub ordered : (j i : ℕ) (s : Spender) → spender_at j i store.rows ≡ some s → j < s.tx

pub below_inputs : (b j : ℕ) (rows : List Row) → AllBelow b rows → b ≤ j → inputs_of j rows ≡ []
below_inputs b j [] all h = refl
below_inputs b j (r ∷ rs) all h =
    let other : (r.id == j) ≡ false = ground (arith, all.0) in
    rw other (below_inputs b j rs all.1 h)

spender_at_below :
    (b j i : ℕ) (rows : List Row) {s : Spender}
    → AllBelow b rows
    → spender_at j i rows ≡ some s
    → j < b
unfolding spender_at
spender_at_below b j i [] all e = cc
spender_at_below b j i (r ∷ rs) all e = elim (if_cases (r.id == j) e) [
  | inl (same, _) ↦ omega (arith, all.0, ==-true r.id j same)
  | inr (_, later) ↦ spender_at_below b j i rs all.1 later
]

weaken_below : (b : ℕ) (rows : List Row) → AllBelow b rows → AllBelow (b + 1) rows
weaken_below b [] all = tt
weaken_below b (r ∷ rs) all = (omega (arith, all.0), weaken_below b rs all.1)

numbered_has :
    (n l : ℕ) (ts : List TxIn) → IsNumbered n ts → n ≤ l → l < n + length ts → has_index l ts ≡ true
numbered_has n l [] numbered low high = absurd (omega arith)
numbered_has n l (t ∷ ts) numbered low high = elim (le_cases (n + 1) l) [
  | inl more ↦
      let here : (t.txindex == l) ≡ false = ground (arith, numbered.0) in
      rw here (numbered_has (n + 1) l ts numbered.1 more (omega arith))
  | inr e ↦ let here : (t.txindex == l) ≡ true = ground (arith, numbered.0) in rw here refl
]

-- A transaction is added whose inputs have come to spend outputs.
pub added-IsConnected :
    (store : Store) (middle rows : List Row) (txins : List TxIn) (tx : Tx)
    → IsConnected store
    → IsNumbered 0 txins
    → Grown store.next_id 0 (0 + length txins) store.rows middle
    → Kept middle rows
    → tx.txins ≡ txins
    → AllUnspent tx.txouts
    → IsConnected (record {
      rows = record { id = store.next_id; tx = tx } ∷ rows;
      next_id = store.next_id + 1;
    })
unfolding spender_at
added-IsConnected store middle rows txins tx sound numbered grown kept ins outs =
    let next = store.next_id in
    record {
      linked = (λ j l. few j l, λ j l h. has j l h);
      below =
          (omega arith, weaken_below next rows (kept.below next (grown.below next sound.below)));
      ordered = λ j i s e. order j i s e;
    }
  where
    unspent_before : (l : ℕ) → count_spent store.next_id l store.rows ≡ 0
    unspent_before l = elim (le_cases (count_spent store.next_id l store.rows) 0) [
      | inl z ↦ omega arith
      | inr some_spent ↦
          let f : has_index l [] ≡ true =
            rw (below_inputs store.next_id store.next_id store.rows sound.below (omega arith)) at
              (sound.linked.1 store.next_id l some_spent) in
          cc
    ]

    few : (j l : ℕ) → count_outputs j l tx.txouts + count_spent j l rows ≤ 1
    few j l = elim (Bool-cases (j == store.next_id)) [
      | inl e ↦
          let same = ==-true j store.next_id e in
          rw same (
            omega (
              arith,
              AllUnspent-count store.next_id l tx.txouts outs,
              kept.counts store.next_id l,
              grown.once l,
              unspent_before l,
            ))
      | inr e ↦ omega (
        arith,
        AllUnspent-count j l tx.txouts outs,
        kept.counts j l,
        grown.others j l e,
        sound.linked.0 j l,
      )
    ]

    has :
        (j l : ℕ)
        → 0 < count_outputs j l tx.txouts + count_spent j l rows
        → has_index l (if store.next_id == j then tx.txins else inputs_of j rows) ≡ true
    has j l h = elim (Bool-cases (store.next_id == j)) [
      | inl e ↦
          let same = ==-true store.next_id j e in
          rw (e, ins)
            (elim (le_cases (0 + length txins) l) [
              | inl high ↦ absurd (
                  omega (
                    arith,
                    h,
                    AllUnspent-count j l tx.txouts outs,
                    kept.counts j l,
                    ap (λ (k : ℕ). count_spent k l middle) same,
                    grown.upper l high,
                    unspent_before l,
                  ))
              | inr low ↦ numbered_has 0 l txins numbered (omega arith) low
            ])
      | inr e ↦
          let other : (j == store.next_id) ≡ false = ground arith in
          rw (e, kept.inputs j, grown.inputs j)
            (sound.linked.1 j l (
              omega (
                arith,
                h,
                AllUnspent-count j l tx.txouts outs,
                kept.counts j l,
                grown.others j l other,
              )))
    ]

    order :
        (j i : ℕ) (s : Spender)
        → (if store.next_id == j then spender_of i tx.txouts else spender_at j i rows) ≡ some s
        → j < s.tx
    order j i s e = elim (if_cases (store.next_id == j) e) [
      | inl (_, own) ↦
          let f : none ≡ some s = sym (AllUnspent-spender_of i tx.txouts outs) ∙ own in cc
      | inr (_, other) ↦
          let e' = sym (kept.spenders j i) ∙ other in
          elim (grown.spenders j i s e') [
            | inl earlier ↦ sound.ordered j i s earlier
            | inr new ↦ omega (
              arith,
              new,
              spender_at_below store.next_id j i middle (grown.below store.next_id sound.below) e',
            )
          ]
    ]
