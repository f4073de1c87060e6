-- ===== src/Vault/Ledger/Confirmations.antt =====
-- The stored blocks that the transactions of the vault are in, for the deletion of blocks and the
-- confirmations by a new one in CoinDB/src/Vault.cpp.
use coin_vault.Common.{
  Bytes, bytes_eq_refl, bytes_eq, ℕ, ◌≡◌, refl, inl, inr, Bool, true, false, ◌&&◌, ◌||◌, Option,
  none, some, List, [], ◌∷◌, ltb, if◌then◌else◌, Bool-cases, ◌>>=◌, throw_if, >>=-eq-ok,
  ok-injective, invalid_merkle_block, ok,
}
use coin_vault.Vault.Blocks.{BlockHeader, MerkleBlock}
use coin_vault.Vault.Tx.{Tx, set_blockheader}
use coin_vault.Vault.Ledger.{has_block, is_in_block, holds_hash, unconfirm, delete_rows, confirm}

-- There is a block with this hash.
unfoldable pub has_hash : List MerkleBlock → Bytes → Bool
has_hash [] hash = false
has_hash (b ∷ bs) hash = bytes_eq hash b.blockheader.hash || has_hash bs hash

abbrev pub held : List MerkleBlock → Option BlockHeader → Bool
held bs none = true
held bs (some header) = has_hash bs header.hash

-- Every transaction that is in a block is in one of two lists of blocks.
abbrev pub AllHeld : List MerkleBlock → List MerkleBlock → List Tx → Type 0
AllHeld front bs [] = Unit {0}
AllHeld front bs (t ∷ ts) =
    ((held front t.blockheader || held bs t.blockheader) ≡ true) × AllHeld front bs ts

or_swap : (f x g : Bool) → (f || (x || g)) ≡ true → ((x || f) || g) ≡ true
or_swap true true g e = refl
or_swap true false g e = refl
or_swap false true g e = refl
or_swap false false g e = e

or_back : (f x g : Bool) → ((x || f) || g) ≡ true → (f || (x || g)) ≡ true
or_back true x g e = refl
or_back false true g e = refl
or_back false false g e = e

or_right : (f x g : Bool) → (f || g) ≡ true → (f || (x || g)) ≡ true
or_right true x g e = refl
or_right false true g e = refl
or_right false false g e = e

held_front :
    (front : List MerkleBlock) (b : MerkleBlock) (bs : List MerkleBlock) (o : Option BlockHeader)
    → (held front o || held (b ∷ bs) o) ≡ true
    → (held (b ∷ front) o || held bs o) ≡ true
unfolding has_hash
held_front front b bs none e = refl
held_front front b bs (some h) e = or_swap (has_hash front h.hash) _ (has_hash bs h.hash) e

held_behind :
    (front : List MerkleBlock) (b : MerkleBlock) (bs : List MerkleBlock) (o : Option BlockHeader)
    → (held (b ∷ front) o || held bs o) ≡ true
    → (held front o || held (b ∷ bs) o) ≡ true
unfolding has_hash
held_behind front b bs none e = refl
held_behind front b bs (some h) e = or_back (has_hash front h.hash) _ (has_hash bs h.hash) e

AllHeld-front :
    (front : List MerkleBlock) (b : MerkleBlock) (bs : List MerkleBlock) (ts : List Tx)
    → AllHeld front (b ∷ bs) ts
    → AllHeld (b ∷ front) bs ts
AllHeld-front front b bs [] v = tt
AllHeld-front front b bs (t ∷ ts) v =
    (held_front front b bs t.blockheader v.0, AllHeld-front front b bs ts v.1)

AllHeld-behind :
    (front : List MerkleBlock) (b : MerkleBlock) (bs : List MerkleBlock) (ts : List Tx)
    → AllHeld (b ∷ front) bs ts
    → AllHeld front (b ∷ bs) ts
AllHeld-behind front b bs [] v = tt
AllHeld-behind front b bs (t ∷ ts) v =
    (held_behind front b bs t.blockheader v.0, AllHeld-behind front b bs ts v.1)

-- A transaction that is not in the deleted block is in another one.
held_elsewhere :
    (front : List MerkleBlock) (b : MerkleBlock) (bs : List MerkleBlock) (o : Option BlockHeader)
    → is_in_block b.blockheader o ≡ false
    → (held front o || held (b ∷ bs) o) ≡ true
    → (held front o || held bs o) ≡ true
unfolding has_hash is_in_block
held_elsewhere front b bs none out e = refl
held_elsewhere front b bs (some h) out e = rw out at e

unconfirm-AllHeld :
    (front : List MerkleBlock) (b : MerkleBlock) (bs : List MerkleBlock) (ts : List Tx)
    → AllHeld front (b ∷ bs) ts
    → AllHeld front bs (unconfirm b.blockheader ts)
unfolding unconfirm set_blockheader
unconfirm-AllHeld front b bs [] v = tt
unconfirm-AllHeld front b bs (t ∷ ts) v = (
  elim (Bool-cases (is_in_block b.blockheader t.blockheader)) [
    | inl e ↦ rw e refl
    | inr e ↦ rw e (held_elsewhere front b bs t.blockheader e v.0)
  ],
  unconfirm-AllHeld front b bs ts v.1,
)

pub delete_rows-AllHeld :
    (height : ℕ) (front bs : List MerkleBlock) (ts : List Tx)
    → AllHeld front bs ts
    → AllHeld front (delete_rows height bs ts).0 (delete_rows height bs ts).1
unfolding delete_rows
delete_rows-AllHeld height front [] ts v = v
delete_rows-AllHeld height front (b ∷ bs) ts v =
    elim (Bool-cases (ltb b.blockheader.height height)) [
      | inl low ↦ rw low (
          AllHeld-behind front b _ _
            (delete_rows-AllHeld height (b ∷ front) bs ts (AllHeld-front front b bs ts v)))
      | inr high ↦ rw high (
          delete_rows-AllHeld height front bs (unconfirm b.blockheader ts)
            (unconfirm-AllHeld front b bs ts v))
    ]

pub held_cons :
    (b : MerkleBlock) (bs : List MerkleBlock) (o : Option BlockHeader)
    → (held [] o || held bs o) ≡ true
    → (held [] o || held (b ∷ bs) o) ≡ true
unfolding has_hash
held_cons b bs none e = refl
held_cons b bs (some h) e = or_right false (bytes_eq h.hash b.blockheader.hash) _ e

-- A further block holds what the others hold.
pub AllHeld-cons :
    (b : MerkleBlock) (bs : List MerkleBlock) (ts : List Tx)
    → AllHeld [] bs ts
    → AllHeld [] (b ∷ bs) ts
unfolding has_hash
AllHeld-cons b bs [] v = tt
AllHeld-cons b bs (t ∷ ts) v = (held_cons b bs t.blockheader v.0, AllHeld-cons b bs ts v.1)

-- A transaction of the new block is in it, another one stays where it is.
held_confirm :
    (b : MerkleBlock) (bs : List MerkleBlock) (here : Bool) (t : Tx)
    → (held [] t.blockheader || held bs t.blockheader) ≡ true
    → (let o = (if here then set_blockheader (some b.blockheader) t else t).blockheader in
        (held [] o || held (b ∷ bs) o))
      ≡ true
unfolding has_hash set_blockheader
held_confirm b bs true t e = rw bytes_eq_refl refl
held_confirm b bs false t e = held_cons b bs t.blockheader e

-- What a new block confirms is in it.
pub confirm-AllHeld :
    (b : MerkleBlock) (hashes : List Bytes) (bs : List MerkleBlock) (ts : List Tx) {after : List Tx}
    → AllHeld [] bs ts
    → confirm b.blockheader hashes ts ≡ ok after
    → AllHeld [] (b ∷ bs) after
unfolding confirm
confirm-AllHeld b hashes bs [] v returns = rw (← ok-injective returns) tt
confirm-AllHeld b hashes bs (t ∷ ts) v returns =
    let here = holds_hash hashes t.hash in
    let (_, _, new) =
      >>=-eq-ok (throw_if (here && has_block t.blockheader) invalid_merkle_block)
        (λ (done : Unit {0}). do
          later ← confirm b.blockheader hashes ts
          ok ((if here then set_blockheader (some b.blockheader) t else t) ∷ later))
        returns in
    let (later, rest, result) =
      >>=-eq-ok (confirm b.blockheader hashes ts)
        (λ (later : List Tx).
          ok ((if here then set_blockheader (some b.blockheader) t else t) ∷ later))
        new in
    rw (← ok-injective result)
      (held_confirm b bs here t v.0, confirm-AllHeld b hashes bs ts v.1 rest)
