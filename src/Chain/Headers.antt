-- ===== src/Chain/Headers.antt =====
-- The state of CoinQBlockTreeMem. A pointer to a header in the map is the header's key.
use coin_vault.Common.{
  Bytes, bytes_eq, ℕ, ◌≡◌, Bool, true, false, ◌&&◌, ◌||◌, Option, none, some, List, [], ◌∷◌, ltb,
  ◌==◌, if◌then◌else◌, Error, Result, not_found, out_of_range, err, ok,
}
use coin_vault.Wire.BlockHeader.{BlockHeader}

pub record ChainHeader : Type 0 where
  pub header : BlockHeader
  pub open header use *
  pub in_best_chain : Bool
  pub height : ℕ
  pub chain_work : ℕ
  pub child_hashes : List Bytes

-- What the subscribers are told; of a ChainHeader, the header.
pub data Notice : Type 0 where
  insert delete reorg add_best_chain remove_best_chain : BlockHeader → Notice

-- `best_height` is `none` for -1; the newest notice comes first.
pub record BlockTree : Type 0 where
  pub headers : List (Bytes × ChainHeader)
  pub heights : List (ℕ × Bytes)
  pub best_height : Option ℕ
  pub total_work : ℕ
  pub head : Option Bytes
  pub check_proof_of_work : Bool
  pub notices : List Notice

module _ {A : Type 0} where
  -- `std::map::find` and `operator[]` with an assignment.
  unfoldable pub find : Bytes → List (Bytes × A) → Option A
  unfolding bytes_eq
  find key [] = none
  find key ((k, a) ∷ entries) = if bytes_eq k key then some a else find key entries

  unfoldable pub put : Bytes → A → List (Bytes × A) → List (Bytes × A)
  unfolding bytes_eq
  put key a [] = (key, a) ∷ []
  put key a ((k, b) ∷ entries) =
      if bytes_eq k key then (k, a) ∷ entries else (k, b) ∷ put key a entries

  -- The entries for a height.
  unfoldable pub erase_height : ℕ → List (ℕ × A) → List (ℕ × A)
  erase_height n [] = []
  erase_height n ((m, a) ∷ entries) =
      let rest = erase_height n entries in if m == n then rest else (m, a) ∷ rest

-- The order of a `std::set` of byte vectors.
unfoldable pub bytes_before : Bytes → Bytes → Bool
bytes_before [] [] = false
bytes_before [] (y ∷ ys) = true
bytes_before (x ∷ xs) [] = false
bytes_before (x ∷ xs) (y ∷ ys) = ltb x y || (x == y && bytes_before xs ys)

unfoldable pub insert_hash : Bytes → List Bytes → List Bytes
unfolding bytes_before bytes_eq
insert_hash hash [] = hash ∷ []
insert_hash hash (h ∷ hashes) =
    let tail = insert_hash hash hashes in
    if bytes_eq h hash
    then h ∷ hashes
    else if bytes_before hash h
    then hash ∷ h ∷ hashes
    else h ∷ tail

-- `if (it == end()) throw e;`
abbrev pub or_throw {ℓ} : {A : Type ℓ} → Error → Option A → Result A
or_throw e none = err e
or_throw e (some a) = ok a

pub or_throw-ok {ℓ} :
    {A : Type ℓ} (e : Error) (found : Option A) {a : A} → or_throw e found ≡ ok a → found ≡ some a
or_throw-ok e none h = cc
or_throw-ok e (some a) h = cc

-- `mHeaderHashMap.at(hash)`
unfoldable pub header_at : BlockTree → Bytes → Result ChainHeader
unfolding find
header_at t hash = or_throw out_of_range (find hash t.headers)

unfoldable pub has_header : BlockTree → Bytes → Bool
unfolding find
has_header t hash = elim (find hash t.headers) [ none ↦ false | some h ↦ true ]

-- `getHeader` with a hash.
unfoldable pub get_header : BlockTree → Bytes → Result ChainHeader
unfolding find
get_header t hash = or_throw not_found (find hash t.headers)

unfoldable pub notify : Notice → BlockTree → BlockTree
notify notice t = record t { notices = notice ∷ t.notices }

unfoldable pub store : Bytes → ChainHeader → BlockTree → BlockTree
unfolding put
store key h t = record t { headers = put key h t.headers }
