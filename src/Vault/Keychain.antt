-- ===== src/Vault/Keychain.antt =====
-- class Keychain of CoinDB/src/Schema.h and Schema.cpp: keys that can be locked. The pointer to the
-- parent is left out. ENABLE_CRYPTO is not defined, so that a ciphertext is the key itself.
use coin_vault.Common.{
  Bytes, length, ℕ, ◌*◌, Bool, true, false, not, ◌&&◌, ◌||◌, List, [], ◌∷◌, ◌++◌, ltb, ◌==◌,
  if◌then◌else◌, Result, ◌>>=◌, ◌>>◌, throw_if, invalid_name, not_private, is_private_locked,
  is_chain_code_locked, ok,
}
pub mod Locks

pub record Keychain : Type 0 where
  pub name : Bytes
  pub depth : ℕ
  pub parent_fp : ℕ
  pub child_num : ℕ
  pub pubkey : Bytes
  pub chain_code : Bytes
  pub chain_code_ciphertext : Bytes
  pub chain_code_salt : Bytes
  pub privkey : Bytes
  pub privkey_ciphertext : Bytes
  pub privkey_salt : Bytes
  pub derivation_path : List ℕ
  pub hash : Bytes
  pub hidden : Bool

-- What the code calls of class HDKeychain, whose objects are the nodes.
pub record HdKeys (Node : Type 0) : Type 0 where
  pub new_node : Bytes → Bytes → ℕ → ℕ → ℕ → Result Node
  pub from_seed : Bytes → Result Node
  pub from_extkey : Bytes → Result Node
  pub get_child : Node → ℕ → Result Node
  pub node_private : Node → Bool
  pub node_key : Node → Bytes
  pub node_privkey : Node → Bytes
  pub node_pubkey : Node → Bytes
  pub node_chain_code : Node → Bytes
  pub node_hash : Node → Bytes
  pub node_extkey : Node → Bytes
  pub node_depth : Node → ℕ
  pub node_parent_fp : Node → ℕ
  pub node_child_num : Node → ℕ
  pub private_signing_key : Node → ℕ → Result Bytes
  pub public_signing_key : Node → ℕ → Result Bytes

abbrev pub no_bytes : Bytes → Bool
no_bytes [] = true
no_bytes (b ∷ bs) = false

-- Empty names, and names that begin with `@`, are refused.
abbrev pub reserved_name : Bytes → Bool
reserved_name [] = true
reserved_name (c ∷ cs) = c == b'@'

unfoldable pub is_private : Keychain → Bool
is_private k = not (no_bytes k.privkey) || not (no_bytes k.privkey_ciphertext)

unfoldable pub is_encrypted : Keychain → Bool
is_encrypted k = not (no_bytes k.privkey_salt)

unfoldable pub set_private_key_unlock_key : Bytes → Keychain → Result (Keychain × Bool)
unfolding is_private
set_private_key_unlock_key lock_key k = do
  throw_if (not (is_private k)) not_private
  throw_if (no_bytes k.privkey) is_private_locked
  ok (record k { privkey_ciphertext = k.privkey; privkey_salt = [] }, true)

unfoldable pub set_chain_code_unlock_key : Bytes → Keychain → Result (Keychain × Bool)
set_chain_code_unlock_key lock_key k = do
  throw_if (no_bytes k.chain_code) is_chain_code_locked
  ok (record k { chain_code_ciphertext = k.chain_code; chain_code_salt = [] }, true)

unfoldable pub lock_private_key : Keychain → Keychain
lock_private_key k = record k { privkey = [] }

unfoldable pub lock_chain_code : Keychain → Keychain
lock_chain_code k = record k { chain_code = [] }

unfoldable pub lock_all : Keychain → Keychain
unfolding lock_private_key lock_chain_code
lock_all k = lock_chain_code (lock_private_key k)

unfoldable pub private_key_locked : Keychain → Result Bool
unfolding is_private
private_key_locked k = do throw_if (not (is_private k)) not_private; ok (no_bytes k.privkey)

unfoldable pub chain_code_locked : Keychain → Bool
chain_code_locked k = no_bytes k.chain_code

unfoldable pub unlock_private_key : Bytes → Keychain → Result (Keychain × Bool)
unfolding is_private
unlock_private_key lock_key k = do
  throw_if (not (is_private k)) not_private
  if no_bytes k.privkey
      then ok (record k { privkey = k.privkey_ciphertext }, true)
      else ok (k, true)

unfoldable pub unlock_chain_code : Bytes → Keychain → Keychain × Bool
unlock_chain_code lock_key k =
    if no_bytes k.chain_code
    then (record k { chain_code = k.chain_code_ciphertext }, true)
    else (k, true)

unfoldable pub get_privkey : Keychain → Result Bytes
unfolding is_private
get_privkey k = do
  throw_if (not (is_private k)) not_private
  throw_if (no_bytes k.privkey) is_private_locked
  ok k.privkey

unfoldable pub get_chain_code : Keychain → Result Bytes
get_chain_code k = do throw_if (no_bytes k.chain_code) is_chain_code_locked; ok k.chain_code

unfoldable pub import_private_key : Keychain → Keychain → Keychain
import_private_key source k = record k {
  privkey_ciphertext = source.privkey_ciphertext;
  privkey_salt = source.privkey_salt;
}

unfoldable pub clear_private_key : Keychain → Keychain
clear_private_key k = record k { privkey = []; privkey_ciphertext = []; privkey_salt = [] }

-- The copy constructor leaves the hash empty.
unfoldable pub copy : Keychain → Keychain
copy source = record source { hash = [] }

-- `operator=` keeps the name and computes the hash; `hash160` stands for ripemd160 after sha256.
unfoldable pub assign : (Bytes → Bytes) → Keychain → Keychain → Keychain
assign hash160 source k = record source {
  name = k.name;
  hash = hash160 (source.pubkey ++ source.chain_code);
}

-- A leading byte in front of the 32 bytes of a private key is dropped.
unfoldable pub strip : Bytes → Bytes
strip [] = []
strip (b ∷ bs) = if ltb 32 (length (b ∷ bs)) then bs else b ∷ bs

module _ {Node : Type 0} (hd : HdKeys Node) where
  open hd use {
    new_node, from_seed, from_extkey, get_child, node_private, node_key, node_privkey, node_pubkey,
    node_chain_code, node_hash, node_extkey, node_depth, node_parent_fp, node_child_num,
    private_signing_key, public_signing_key,
  }

  unfoldable pub of_node : Node → Keychain → Keychain
  of_node node k = record k {
    depth = node_depth node;
    parent_fp = node_parent_fp node;
    child_num = node_child_num node;
    chain_code = node_chain_code node;
    pubkey = node_pubkey node;
    hash = node_hash node;
  }

  -- The constructor from a name; `blank` is the object before its members are set.
  unfoldable pub new_root : Keychain → Bytes → Bytes → Bytes → Result Keychain
  unfolding of_node set_private_key_unlock_key set_chain_code_unlock_key
  new_root blank name entropy lock_key = do
    throw_if (reserved_name name) invalid_name
    let named = record blank { name = name; hidden = false }
    if no_bytes entropy then ok named else (do
      node ← from_seed entropy
      (with_privkey, _) ←
          set_private_key_unlock_key lock_key
            (record (of_node node named) { privkey = node_key node })
      (with_both, _) ← set_chain_code_unlock_key lock_key with_privkey
      ok with_both)

  -- Both branches of `child`; the stripped private key is overwritten by the whole one.
  unfoldable pub child_of : Keychain → Keychain → ℕ → Bytes → (Node → Bytes) → Result Keychain
  unfolding of_node
  child_of blank k i key child_privkey = do
    node ← new_node key k.chain_code k.child_num k.parent_fp k.depth
    below ← get_child node i
    ok (record (of_node below blank) {
      privkey = child_privkey below;
      derivation_path = k.derivation_path ++ (i ∷ []);
    })

  unfoldable pub child : Keychain → ℕ → Bool → Keychain → Result Keychain
  unfolding is_private child_of
  child blank i get_private k = do
    throw_if (get_private && not (is_private k)) not_private
    throw_if (no_bytes k.chain_code) is_chain_code_locked
    if get_private
        then (do
          throw_if (no_bytes k.privkey) is_private_locked
          child_of blank k i k.privkey node_privkey)
        else child_of blank k i k.pubkey (λ node. [])

  -- `for (auto k: derivation_path) { hdkeychain = hdkeychain.getChild(k); }`
  unfoldable pub descend : List ℕ → Node → Result Node
  descend [] node = ok node
  descend (i ∷ is) node = do below ← get_child node i; descend is below

  unfoldable pub get_signing_private_key : ℕ → List ℕ → Keychain → Result Bytes
  unfolding is_private strip descend
  get_signing_private_key i path k = do
    throw_if (not (is_private k)) not_private
    throw_if (no_bytes k.privkey) is_private_locked
    throw_if (no_bytes k.chain_code) is_chain_code_locked
    node ← new_node (strip k.privkey) k.chain_code k.child_num k.parent_fp k.depth
    last ← descend path node
    private_signing_key last i

  unfoldable pub get_signing_public_key : ℕ → List ℕ → Keychain → Result Bytes
  unfolding descend
  get_signing_public_key i path k = do
    throw_if (no_bytes k.chain_code) is_chain_code_locked
    node ← new_node k.pubkey k.chain_code k.child_num k.parent_fp k.depth
    last ← descend path node
    public_signing_key last i

  unfoldable pub set_extkey : Bytes → Bool → Bytes → Keychain → Result Keychain
  unfolding of_node set_private_key_unlock_key
  set_extkey extkey try_private lock_key k = do
    node ← from_extkey extkey
    if node_private node && try_private
        then (do
          (with_privkey, _) ←
              set_private_key_unlock_key lock_key (record k { privkey = node_key node })
          ok (of_node node with_privkey))
        else ok (record (of_node node k) { privkey = [] })

  unfoldable pub get_extkey : Bool → Keychain → Result Bytes
  unfolding is_private strip
  get_extkey get_private k = do
    throw_if (get_private && not (is_private k)) not_private
    throw_if (get_private && no_bytes k.privkey) is_private_locked
    throw_if (no_bytes k.chain_code) is_chain_code_locked
    let key = if get_private then strip k.privkey else k.pubkey
    node ← new_node key k.chain_code k.child_num k.parent_fp k.depth
    ok (node_extkey node)
