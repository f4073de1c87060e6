-- ===== src/Vault/Keychain/Locks.antt =====
-- Locking and unlocking of class Keychain.
use coin_vault.Common.{
  Bytes, ℕ, ◌≡◌, refl, ap, ◌∙◌, Bool, true, false, not, List, [], Error, Result, ◌>>=◌, throw_if,
  not_private, is_private_locked, is_chain_code_locked, err, ok,
}
use coin_vault.Vault.Keychain.{
  Keychain, HdKeys, no_bytes, reserved_name, is_private, set_private_key_unlock_key,
  set_chain_code_unlock_key, lock_private_key, lock_chain_code, lock_all, unlock_private_key,
  unlock_chain_code, get_privkey, get_chain_code, new_root, child, get_signing_private_key,
  get_signing_public_key, get_extkey, of_node,
}

-- The call throws.
abbrev pub Throws {ℓ} : {A : Type ℓ} → Result A → Type ℓ
Throws call = (e : Error) × (call ≡ err e)

Throws-either {ℓ} :
    {A : Type ℓ} (b : Bool) (e f : Error) → Throws {A = A} (throw_if b e >>= λ done. err f)
Throws-either true e f = (e, refl)
Throws-either false e f = (f, refl)

module _ {Node : Type 0} (hd : HdKeys Node) where
  -- After lockAll these calls throw: privkey, chain_code, getSigningPrivateKey and
  -- getSigningPublicKey for every index and path, extkey and child, public and private; the
  -- members other than the private key and the chain code, which are the public key and the
  -- ciphertexts among others, are what they were.
  pub lock_all-Throws :
      (k blank : Keychain) (i : ℕ) (path : List ℕ) (get_private : Bool)
      → Throws (get_privkey (lock_all k))
        × Throws (get_chain_code (lock_all k))
        × Throws (get_signing_private_key hd i path (lock_all k))
        × Throws (get_signing_public_key hd i path (lock_all k))
        × Throws (get_extkey hd get_private (lock_all k))
        × Throws (child hd blank i get_private (lock_all k))
        × (record (lock_all k) { privkey = k.privkey; chain_code = k.chain_code } ≡ k)
  unfolding lock_all lock_private_key lock_chain_code get_privkey get_chain_code is_private
      get_signing_private_key get_signing_public_key get_extkey child
  lock_all-Throws k blank i path true =
      let b = not (not (no_bytes k.privkey_ciphertext)) in
      (
        Throws-either b not_private is_private_locked,
        (is_chain_code_locked, refl),
        Throws-either b not_private is_private_locked,
        (is_chain_code_locked, refl),
        Throws-either b not_private is_private_locked,
        Throws-either b not_private is_chain_code_locked,
        refl,
      )
  lock_all-Throws k blank i path false =
      let b = not (not (no_bytes k.privkey_ciphertext)) in
      (
        Throws-either b not_private is_private_locked,
        (is_chain_code_locked, refl),
        Throws-either b not_private is_private_locked,
        (is_chain_code_locked, refl),
        (is_chain_code_locked, refl),
        (is_chain_code_locked, refl),
        refl,
      )

-- Both keys are there, and their ciphertexts hold them.
record IsStored (k : Keychain) : Type 0 where
  privkey_there : no_bytes k.privkey ≡ false
  chain_code_there : no_bytes k.chain_code ≡ false
  privkey_kept : k.privkey_ciphertext ≡ k.privkey
  chain_code_kept : k.chain_code_ciphertext ≡ k.chain_code

unfoldable pub unlock_both : Bytes → Bytes → Keychain → Result Keychain
unfolding unlock_private_key unlock_chain_code
unlock_both key other k = do
  (with_privkey, _) ← unlock_private_key key k
  ok (unlock_chain_code other with_privkey).0

-- With both ciphertexts there, unlocking undoes lockAll.
unlock_both-lock_all :
    (k : Keychain) (key other : Bytes) → IsStored k → unlock_both key other (lock_all k) ≡ ok k
unfolding unlock_both lock_all lock_private_key lock_chain_code unlock_private_key unlock_chain_code
    is_private
unlock_both-lock_all k key other s =
    rw (ap no_bytes s.privkey_kept ∙ s.privkey_there)
      (λ i. ok (record k { privkey = s.privkey_kept i; chain_code = s.chain_code_kept i }))

module _ {Node : Type 0} (hd : HdKeys Node) where
  -- A new keychain holds the keys of its node under its name.
  new_root-IsStored :
      (blank : Keychain) (name entropy lock_key : Bytes) (node : Node)
      → reserved_name name ≡ false
      → no_bytes entropy ≡ false
      → hd.from_seed entropy ≡ ok node
      → no_bytes (hd.node_key node) ≡ false
      → no_bytes (hd.node_chain_code node) ≡ false
      → (k : Keychain) × (new_root hd blank name entropy lock_key ≡ ok k)
        × (k.name ≡ name)
        × (k.privkey ≡ hd.node_key node)
        × (k.chain_code ≡ hd.node_chain_code node)
        × IsStored k
  unfolding new_root of_node set_private_key_unlock_key set_chain_code_unlock_key is_private
  new_root-IsStored blank name entropy lock_key node free some_entropy made key code = (
    stored,
    rw (free, some_entropy, made, key, code) refl,
    refl,
    refl,
    refl,
    record {
      privkey_there = key;
      chain_code_there = code;
      privkey_kept = refl;
      chain_code_kept = refl;
    },
  )
    where
      stored : Keychain
      stored = record (of_node hd node (record blank { name = name; hidden = false })) {
        privkey = hd.node_key node;
        privkey_ciphertext = hd.node_key node;
        privkey_salt = [];
        chain_code_ciphertext = hd.node_chain_code node;
        chain_code_salt = [];
      }

  -- For a name that is free, entropy that is not empty and a node of HDKeychain whose key and
  -- chain code are not empty, the constructor of Keychain succeeds with the key and the chain code
  -- of the node; behind lockAll, privkey and chain_code throw that they are locked; and unlocking
  -- both then gives the same keychain back, whatever the key that it was locked with and the keys
  -- that unlock it.
  pub new_root_locked_lem :
      (blank : Keychain) (name entropy lock_key key other : Bytes) (node : Node)
      → reserved_name name ≡ false
      → no_bytes entropy ≡ false
      → hd.from_seed entropy ≡ ok node
      → no_bytes (hd.node_key node) ≡ false
      → no_bytes (hd.node_chain_code node) ≡ false
      → (k : Keychain) × (new_root hd blank name entropy lock_key ≡ ok k)
        × (get_privkey k ≡ ok (hd.node_key node))
        × (get_chain_code k ≡ ok (hd.node_chain_code node))
        × (get_privkey (lock_all k) ≡ err is_private_locked)
        × (get_chain_code (lock_all k) ≡ err is_chain_code_locked)
        × (unlock_both key other (lock_all k) ≡ ok k)
  unfolding get_privkey get_chain_code is_private lock_all lock_private_key lock_chain_code
  new_root_locked_lem blank name entropy lock_key key other node free some_entropy made has_key
        has_code =
      let (k, new, _, privkey, chain_code, stored) =
        new_root-IsStored blank name entropy lock_key node free some_entropy made has_key
          has_code in
      (
        k,
        new,
        rw (stored.privkey_there, privkey) refl,
        rw (stored.chain_code_there, chain_code) refl,
        rw (ap no_bytes stored.privkey_kept, stored.privkey_there) refl,
        refl,
        unlock_both-lock_all k key other stored,
      )
