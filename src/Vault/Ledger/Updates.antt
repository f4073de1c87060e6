-- ===== src/Vault/Ledger/Updates.antt =====
-- What updateConfirmations_unwrapped of CoinDB/src/Vault.cpp does to the transactions of the vault.
use coin_vault.Common.{
  Bytes, bytes_eq_refl, ℕ, ◌≡◌, refl, ap, ◌⊎◌, inl, inr, Bool, true, not, ◌&&◌, ◌||◌, Option, none,
  some, List, [], ◌∷◌, Bool-cases,
}
use coin_vault.Vault.Blocks.{BlockHeader, MerkleBlock}
use coin_vault.Vault.Tx.{Tx, set_blockheader}
use coin_vault.Vault.Ledger.{
  Ledger, has_block, holds_hash, confirm_in, is_asked, update_rows, update_confirmations,
}
use coin_vault.Vault.Ledger.Confirmations.{AllHeld, held, has_hash, held_cons}

-- No row changes nothing; the first row puts the transaction into a block.
confirm_in_cases :
    (bs : List MerkleBlock) (t : Tx)
    → (confirm_in bs t ≡ (t, 0)) ⊎ (has_block (confirm_in bs t).0.blockheader ≡ true)
unfolding confirm_in set_blockheader
confirm_in_cases [] t = inl refl
confirm_in_cases (b ∷ bs) t = elim (Bool-cases (holds_hash b.hashes t.hash)) [
  | inl here ↦ inr (rw here refl)
  | inr e ↦ elim (confirm_in_cases bs t) [
    | inl none_here ↦ inl (rw (e, none_here) refl)
    | inr older ↦ inr (rw e older)
  ]
]

confirm_in-held :
    (bs : List MerkleBlock) (t : Tx)
    → t.blockheader ≡ none
    → (let o = (confirm_in bs t).0.blockheader in (held [] o || held bs o)) ≡ true
unfolding confirm_in set_blockheader has_hash
confirm_in-held [] t apart = rw apart refl
confirm_in-held (b ∷ bs) t apart = elim (Bool-cases (holds_hash b.hashes t.hash)) [
  | inl here ↦ rw (here, bytes_eq_refl b.blockheader.hash) refl
  | inr e ↦ rw e (held_cons b bs (confirm_in bs t).0.blockheader (confirm_in-held bs t apart))
]

apart_none : (o : Option BlockHeader) (b : Bool) → (not (has_block o) && b) ≡ true → o ≡ none
apart_none none b e = refl
apart_none (some h) b e = cc

-- Transactions are put into stored blocks only.
pub update_rows-AllHeld :
    (only : Option Bytes) (bs : List MerkleBlock) (ts : List Tx)
    → AllHeld [] bs ts
    → AllHeld [] bs (update_rows only bs ts).0
unfolding update_rows
update_rows-AllHeld only bs [] v = tt
update_rows-AllHeld only bs (t ∷ ts) v =
    elim (Bool-cases (not (has_block t.blockheader) && is_asked only t)) [
      | inl e ↦ rw e (
        confirm_in-held bs t (apart_none t.blockheader (is_asked only t) e),
        update_rows-AllHeld only bs ts v.1,
      )
      | inr e ↦ rw e (v.0, update_rows-AllHeld only bs ts v.1)
    ]

-- What a call has done to a transaction leaves nothing to do for the next one.
update_rows_again :
    (only : Option Bytes) (bs : List MerkleBlock) (ts : List Tx)
    → update_rows only bs (update_rows only bs ts).0 ≡ ((update_rows only bs ts).0, 0)
unfolding update_rows
update_rows_again only bs [] = refl
update_rows_again only bs (t ∷ ts) =
    elim (Bool-cases (not (has_block t.blockheader) && is_asked only t)) [
      | inl e ↦ elim (confirm_in_cases bs t) [
        | inl same ↦ rw (e, same, e, same, update_rows_again only bs ts) refl
        | inr found ↦ rw (e, found, update_rows_again only bs ts) refl
      ]
      | inr e ↦ rw (e, e, update_rows_again only bs ts) refl
    ]

-- After a call of updateConfirmations, for one hash or for all transactions, a second call with
-- the same argument changes no transaction and counts none: no transaction that it looks at is
-- left without a block although a stored block holds its hash.
update_confirmations_again :
    (only : Option Bytes) (ledger : Ledger)
    → (let after = (update_confirmations only ledger).0 in
        update_confirmations only after ≡ (after, 0))
unfolding update_confirmations
update_confirmations_again only ledger =
    ap (λ (q : List Tx × ℕ). (record ledger { txs = q.0 }, q.1))
      (update_rows_again only ledger.blocks ledger.txs)
