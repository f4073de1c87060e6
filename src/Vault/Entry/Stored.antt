-- ===== src/Vault/Entry/Stored.antt =====
-- A stored transaction changes when another copy of it arrives: insert_updated of Vault.Insert, and
-- what that leaves alone (insertTx of CoinDB/src/Vault.cpp).
use coin_vault.Common.{
  Bytes, bytes_eq, ℕ, ◌+◌, ◌≡◌, refl, sym, ap, ◌∙◌, inl, inr, Bool, true, false, not, ◌&&◌, ◌||◌,
  some, List, [], ◌∷◌, arith, ltb, ◌==◌, Bool-cases, if_cases, ◌>>=◌, >>=-eq-ok, ok-injective, ok,
}
use mathlib.Core.Path.{subst}
use mathlib.Core.Option.{some-injective}
use coin_vault.Vault.Inputs.{TxIn}
use coin_vault.Vault.Tx.{Tx, unsigned, status_code, same_status, update_status}
use coin_vault.Vault.Insert.{
  copy_scripts, merge_script, merge_inputs, merge_unsigned, replace_unsigned, update_stored,
  insert_updated,
}
use coin_vault.Vault.DeleteTx.{Row, spender_at}
use coin_vault.Vault.DeleteTx.Counts.{AllBelow, count_outputs, count_spent, inputs_of, has_index}
use coin_vault.Vault.Arrivals.{Store}
use coin_vault.Vault.Arrivals.Links.{update_status-SameEnds}
use coin_vault.Vault.Arrivals.Connected.{IsConnected}
use coin_vault.Vault.Entry.{find_unsigned, put_unsigned, commit_stored}

-- The inputs have the places that they had, and the outputs are the same.
abbrev pub SamePlaces : Tx → Tx → Type 0
SamePlaces tx after =
    ((l : ℕ) → has_index l after.txins ≡ has_index l tx.txins) × (after.txouts ≡ tx.txouts)

copy_scripts-has_index :
    (l : ℕ) (ts others : List TxIn) {after : List TxIn}
    → copy_scripts ts others ≡ ok after
    → has_index l after ≡ has_index l ts
unfolding copy_scripts
copy_scripts-has_index l [] others returns = rw (← ok-injective returns) refl
copy_scripts-has_index l (t ∷ ts) [] returns = cc
copy_scripts-has_index l (t ∷ ts) (other ∷ others) returns =
    let (later, copied, result) =
      >>=-eq-ok (copy_scripts ts others)
        (λ (later : List TxIn). ok (record t { script = other.script } ∷ later)) returns in
    rw (← ok-injective result)
      (ap (λ (b : Bool). t.txindex == l || b) (copy_scripts-has_index l ts others copied))

module _ (hash160 : Bytes → Bytes) (garbage : ℕ) where
  merge_inputs-has_index :
      (l : ℕ) (ts others : List TxIn) {after : List TxIn × Bool}
      → merge_inputs hash160 garbage ts others ≡ ok after
      → has_index l after.0 ≡ has_index l ts
  unfolding merge_inputs
  merge_inputs-has_index l [] others returns = rw (← ok-injective returns) refl
  merge_inputs-has_index l (t ∷ ts) [] returns = cc
  merge_inputs-has_index l (t ∷ ts) (other ∷ others) returns =
      let ((script, changed), merged, rest) =
        >>=-eq-ok (merge_script hash160 garbage t.script other.script)
          (λ (p : Bytes × Bool). do
            (later, more) ← merge_inputs hash160 garbage ts others
            ok (record t { script = p.0 } ∷ later, p.1 || more))
          returns in
      let ((later, more), others_merged, result) =
        >>=-eq-ok (merge_inputs hash160 garbage ts others)
          (λ (p : List TxIn × Bool). ok (record t { script = script } ∷ p.0, changed || p.1))
          rest in
      rw (← ok-injective result)
        (ap (λ (b : Bool). t.txindex == l || b) (merge_inputs-has_index l ts others others_merged))

  merge_unsigned-SamePlaces :
      (stored tx : Tx) {after : Tx × Bool}
      → merge_unsigned hash160 garbage stored tx ≡ ok after
      → SamePlaces stored after.0
  unfolding merge_unsigned
  merge_unsigned-SamePlaces stored tx returns =
      let ((inputs, updated), merged, result) =
        >>=-eq-ok (merge_inputs hash160 garbage stored.txins tx.txins)
          (λ (p : List TxIn × Bool). ok (record stored { txins = p.0 }, p.1)) returns in
      subst (λ (p : Tx × Bool). SamePlaces stored p.0) (ok-injective result)
        (λ l. merge_inputs-has_index l stored.txins tx.txins merged, refl)

  module _ (sha256_2 : Bytes → Bytes) where
    replace_unsigned-SamePlaces :
        (stored tx : Tx) {after : Tx × Bool}
        → replace_unsigned hash160 garbage sha256_2 stored tx ≡ ok after
        → SamePlaces stored after.0
    unfolding replace_unsigned
    replace_unsigned-SamePlaces stored tx returns =
        let (inputs, copied, rest) =
          >>=-eq-ok (copy_scripts stored.txins tx.txins)
            (λ (inputs : List TxIn). do
              (after, changed) ←
                  update_status hash160 garbage sha256_2 (record stored { txins = inputs })
                    tx.status
              ok (after, true))
            returns in
        let ((updated, changed), status, result) =
          >>=-eq-ok
            (update_status hash160 garbage sha256_2 (record stored { txins = inputs }) tx.status)
            (λ (p : Tx × Bool). ok (p.0, true)) rest in
        let ends =
          update_status-SameEnds hash160 garbage sha256_2 (record stored { txins = inputs })
            tx.status status in
        subst (λ (p : Tx × Bool). SamePlaces stored p.0) (ok-injective result)
          (
            λ l.
                ap (λ (ts : List TxIn). has_index l ts) ends.0
                ∙ copy_scripts-has_index l stored.txins tx.txins copied,
            ends.1,
          )

    update_stored-SamePlaces :
        (stored tx : Tx) {after : Tx × Bool}
        → update_stored hash160 garbage sha256_2 stored tx ≡ ok after
        → SamePlaces stored after.0
    unfolding update_stored
    update_stored-SamePlaces stored tx returns =
        elim (if_cases
          (not (same_status tx.status unsigned)
            && ltb (status_code stored.status) (status_code tx.status))
          returns) [
            | inr (_, kept) ↦
                subst (λ (p : Tx × Bool). SamePlaces stored p.0) (ok-injective kept)
                  (λ l. refl, refl)
            | inl (_, moved) ↦
                let ((updated, changed), status, result) =
                  >>=-eq-ok (update_status hash160 garbage sha256_2 stored tx.status)
                    (λ (p : Tx × Bool). ok (p.0, true)) moved in
                let ends =
                  update_status-SameEnds hash160 garbage sha256_2 stored tx.status status in
                subst (λ (p : Tx × Bool). SamePlaces stored p.0) (ok-injective result)
                  (λ l. ap (λ (ts : List TxIn). has_index l ts) ends.0, ends.1)
          ]

    pub insert_updated-SamePlaces :
        (stored tx : Tx) {after : Tx × Bool}
        → insert_updated hash160 garbage sha256_2 stored tx ≡ ok after
        → SamePlaces stored after.0
    unfolding insert_updated
    insert_updated-SamePlaces stored tx returns =
        elim (if_cases (same_status stored.status unsigned) returns) [
          | inr (_, signed) ↦ update_stored-SamePlaces stored tx signed
          | inl (_, incomplete) ↦
              elim (if_cases (not (same_status tx.status unsigned)) incomplete) [
                | inl (_, replaced) ↦ replace_unsigned-SamePlaces stored tx replaced
                | inr (_, merged) ↦ merge_unsigned-SamePlaces stored tx merged
              ]
        ]

-- What such a change leaves alone.
record Refreshed (rows after : List Row) : Type 0 where
  counts : (j l : ℕ) → count_spent j l after ≡ count_spent j l rows
  places : (j l : ℕ) → has_index l (inputs_of j after) ≡ has_index l (inputs_of j rows)
  spenders : (j i : ℕ) → spender_at j i after ≡ spender_at j i rows
  below : (b : ℕ) → AllBelow b rows → AllBelow b after

put_unsigned-Refreshed :
    (hash : Bytes) (tx : Tx) (rows : List Row) {r : Row}
    → find_unsigned hash rows ≡ some r
    → SamePlaces r.tx tx
    → Refreshed rows (put_unsigned hash tx rows)
unfolding find_unsigned put_unsigned spender_at bytes_eq
put_unsigned-Refreshed hash tx [] found places = cc
put_unsigned-Refreshed hash tx (q ∷ qs) {r} found places =
    elim (if_cases (bytes_eq q.tx.unsigned_hash hash) found) [
      | inl (here, e) ↦
          let same = subst (λ (x : Row). SamePlaces x.tx tx) (sym (some-injective q r e)) places in
          rw here (record {
            counts = λ j l. rw same.1 refl;
            places = λ j l. elim (Bool-cases (q.id == j)) [
              | inl e ↦ rw e (same.0 l)
              | inr e ↦ rw e refl
            ];
            spenders = λ j i. rw same.1 refl;
            below = λ b all. all;
          })
      | inr (other, later) ↦
          let kept = put_unsigned-Refreshed hash tx qs later places in
          rw other (record {
            counts = λ j l. ap (λ (k : ℕ). count_outputs j l q.tx.txouts + k) (kept.counts j l);
            places = λ j l. elim (Bool-cases (q.id == j)) [
              | inl e ↦ rw e refl
              | inr e ↦ rw e (kept.places j l)
            ];
            spenders = λ j i. rw (kept.spenders j i) refl;
            below = λ b all. (all.0, kept.below b all.1);
          })
    ]

pub commit_stored-IsConnected :
    (hash : Bytes) (store : Store) (stored : Tx) (returned : Bool) (r : Row)
    → IsConnected store
    → find_unsigned hash store.rows ≡ some r
    → SamePlaces r.tx stored
    → IsConnected (commit_stored hash store stored returned).0
unfolding commit_stored
commit_stored-IsConnected hash store stored false r sound found places = sound
commit_stored-IsConnected hash store stored true r sound found places =
    let kept = put_unsigned-Refreshed hash stored store.rows found places in
    record {
      linked = (
        λ j l. omega (arith, kept.counts j l, sound.linked.0 j l),
        λ j l h. kept.places j l ∙ sound.linked.1 j l (omega (arith, h, kept.counts j l)),
      );
      below = kept.below store.next_id sound.below;
      ordered = λ j i s e. sound.ordered j i s (sym (kept.spenders j i) ∙ e);
    }
