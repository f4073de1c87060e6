-- ===== src/Tests/PaymentTests.antt =====
-- A keychain with toy keys, a payment from two coins, and copies of a transaction that arrive.
use coin_vault.Common.{
  Bytes, ℕ, zero, suc, ◌+◌, ◌≡◌, refl, true, false, none, List, [], ◌∷◌, ◌++◌, arith, Result,
  is_private_locked, is_chain_code_locked, fault, stuck, err, ok,
}
use coin_vault.Vault.Outputs.{TxOut, Receiver, unspent, neither}
use coin_vault.Vault.Tx.{Tx, new, number_inputs}
use coin_vault.Vault.Keychain.{
  Keychain, HdKeys, lock_all, get_privkey, get_chain_code, child, get_signing_private_key,
  get_signing_public_key, get_extkey, new_root, unlock_chain_code,
}
use coin_vault.Vault.Keychain.Locks.{Throws, lock_all-Throws, unlock_both, new_root_locked_lem}
use coin_vault.Vault.CreateTx.{Coin, spend, create_tx}
use coin_vault.Vault.CreateTx.Conservation.{coins_value, outputs_value, create_tx_conserves}

abbrev toy_hash : Bytes → Bytes
toy_hash bytes = bytes

-- The nodes are numbers.
abbrev toy_keys : HdKeys ℕ
toy_keys = record {
  new_node = λ key code child_num parent_fp depth. ok child_num;
  from_seed = λ seed. ok 7;
  from_extkey = λ extkey. ok 7;
  get_child = λ node i. ok i;
  node_private = λ node. true;
  node_key = λ node. node ∷ [];
  node_privkey = λ node. node ∷ [];
  node_pubkey = λ node. node ∷ [];
  node_chain_code = λ node. node ∷ [];
  node_hash = λ node. node ∷ [];
  node_extkey = λ node. node ∷ [];
  node_depth = λ node. 0;
  node_parent_fp = λ node. 0;
  node_child_num = λ node. node;
  private_signing_key = λ node i. ok (i ∷ []);
  public_signing_key = λ node i. ok (i ∷ []);
}

abbrev toy_chain : Keychain
toy_chain = record {
  name = 0x61 ∷ [];
  depth = 0;
  parent_fp = 0;
  child_num = 0;
  pubkey = 2 ∷ [];
  chain_code = 3 ∷ [];
  chain_code_ciphertext = 3 ∷ [];
  chain_code_salt = [];
  privkey = 4 ∷ [];
  privkey_ciphertext = 4 ∷ [];
  privkey_salt = [];
  derivation_path = [];
  hash = 5 ∷ [];
  hidden = false;
}

lock_all-Throws_example :
    Throws (get_privkey (lock_all toy_chain))
    × Throws (get_chain_code (lock_all toy_chain))
    × Throws (get_signing_private_key toy_keys 1 (2 ∷ []) (lock_all toy_chain))
    × Throws (get_signing_public_key toy_keys 1 (2 ∷ []) (lock_all toy_chain))
    × Throws (get_extkey toy_keys true (lock_all toy_chain))
    × Throws (child toy_keys toy_chain 1 true (lock_all toy_chain))
    × (record (lock_all toy_chain) { privkey = 4 ∷ []; chain_code = 3 ∷ [] } ≡ toy_chain)
lock_all-Throws_example = lock_all-Throws toy_keys toy_chain toy_chain 1 (2 ∷ []) true

before_lock : get_signing_private_key toy_keys 1 (2 ∷ []) toy_chain ≡ ok (1 ∷ [])
unfolding get_signing_private_key
before_lock = refl

new_root_locked_lem_example :
    (k : Keychain) × (new_root toy_keys toy_chain (0x62 ∷ []) (1 ∷ []) [] ≡ ok k)
    × (get_privkey k ≡ ok (7 ∷ []))
    × (get_chain_code k ≡ ok (7 ∷ []))
    × (get_privkey (lock_all k) ≡ err is_private_locked)
    × (get_chain_code (lock_all k) ≡ err is_chain_code_locked)
    × (unlock_both (8 ∷ []) (9 ∷ []) (lock_all k) ≡ ok k)
new_root_locked_lem_example =
    new_root_locked_lem toy_keys toy_chain (0x62 ∷ []) (1 ∷ []) [] (8 ∷ []) (9 ∷ []) 7 refl refl
      refl refl refl

-- Without a ciphertext `unlockChainCode` returns true and the chain code stays locked.
unlocked_in_vain :
    (unlock_chain_code [] (record toy_chain { chain_code = []; chain_code_ciphertext = [] })).1
    ≡ true
unfolding unlock_chain_code
unlocked_in_vain = refl

-- A hash of 32 bytes.
abbrev zeros : ℕ → Bytes
zeros zero = []
zeros (suc n) = 0 ∷ zeros n

abbrev coin : ℕ → Coin
coin value = record { value = value; tx_hash = zeros 32; tx_index = value; txinscript = [] }

abbrev coins : List Coin
coins = coin 3 ∷ coin 4 ∷ coin 5 ∷ []

abbrev payment : TxOut
payment = record {
  value = 5;
  script = [];
  txindex = 0;
  spender = none;
  receiver = none;
  status = unspent;
}

abbrev to_change : Receiver
to_change = record { txoutscript = 0x51 ∷ []; account = 1; label = []; account_bin = 1 }

abbrev paid : Result Tx
unfolding create_tx
paid = create_tx toy_hash toy_hash 0 neither (λ ts. ts) 1 0 (payment ∷ []) 1 coins (ok to_change) 9

abbrev tx_of : Result Tx → Tx
tx_of (ok t) = t
tx_of (err e) = new
tx_of fault = new
tx_of stuck = new

paid_is :
    create_tx toy_hash toy_hash 0 neither (λ ts. ts) 1 0 (payment ∷ []) 1 coins (ok to_change) 9
    ≡ ok (tx_of paid)
unfolding paid
paid_is = refl

create_tx_conserves_example :
    (chosen : List Coin) × (rest : List Coin) × (coins ≡ chosen ++ rest)
    × ((tx_of paid).txins ≡ number_inputs 0 (spend 0 chosen))
    × (coins_value chosen ≡ outputs_value (tx_of paid).txouts + 1)
create_tx_conserves_example =
    create_tx_conserves toy_hash toy_hash 0 neither (λ ts. ts) 1 0 (payment ∷ []) 1 coins
      (ok to_change) 9 (λ ts. refl) (unfold outputs_value in omega arith)
      (unfold coins_value in omega arith) paid_is
