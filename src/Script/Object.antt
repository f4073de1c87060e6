-- ===== src/Script/Object.antt =====
-- class Script of CoinQ_script.h and CoinQ_script.cpp: its fields, and the scripts that it writes.
use coin_vault.Common.{
  Bytes, length, at, ℕ, zero, suc, ◌+◌, ◌*◌, ◌%◌, Bool, true, false, not, ◌||◌, List, [], ◌∷◌, ◌++◌,
  ltb, ◌==◌, if◌then◌else◌, Result, ◌>>=◌, ◌>>◌, throw_if, invalid_parameters, ok,
}
use coin_vault.Script.PushData.{op_push_data}
pub mod Parse
pub mod RoundTrip
pub mod Signatures

-- `Script::type_t`
pub data Kind : Type 0 where
  unknown pay_to_pubkey pay_to_pubkey_hash pay_to_multisig_script_hash : Kind

-- `Script::sigtype_t`
pub data SigKind : Type 0 where
  edit sign broadcast : SigKind

-- A signature that is missing is an empty vector.
pub record Script : Type 0 where
  pub kind : Kind
  pub minsigs : ℕ
  pub pubkeys : List Bytes
  pub sigs : List Bytes
  pub redeem_script : Bytes
  pub hash : Bytes

abbrev pub is_empty {ℓ} : {A : Type ℓ} → List A → Bool
is_empty [] = true
is_empty (x ∷ xs) = false

-- Each object behind the operator that pushes it.
unfoldable pub push_objects : List Bytes → Bytes
unfolding op_push_data
push_objects [] = []
push_objects (x ∷ xs) = op_push_data (length x) ++ (x ++ push_objects xs)

unfoldable pub multisig_redeem_script : ℕ → List Bytes → Bytes
unfolding push_objects
multisig_redeem_script minsigs pubkeys =
    (minsigs + 0x50) % 256 ∷ (push_objects pubkeys ++ ((length pubkeys + 0x50) % 256 ∷ 0xae ∷ []))

-- `sigs_.assign(n, bytes_t())`
unfoldable pub blanks : ℕ → List Bytes
blanks zero = []
blanks (suc n) = [] ∷ blanks n

-- `hash160` stands for ripemd160 after sha256, of OpenSSL.
module _ (hash160 : Bytes → Bytes) where
  unfoldable pub make_single : Kind → ℕ → List Bytes → List Bytes → Result Script
  unfolding at
  make_single kind minsigs pubkeys sigs = do
    throw_if (not (minsigs == 1) || not (length pubkeys == 1) || ltb 1 (length sigs))
        invalid_parameters
    key ← at pubkeys 0
    ok (record {
      kind = kind;
      minsigs = minsigs;
      pubkeys = pubkeys;
      sigs = if is_empty sigs then [] ∷ [] else sigs;
      redeem_script = [];
      hash = hash160 key;
    })

  unfoldable pub make_multisig : ℕ → List Bytes → List Bytes → Result Script
  unfolding multisig_redeem_script blanks
  make_multisig minsigs pubkeys sigs = do
    throw_if
        (minsigs == 0
          || ltb 16 (length pubkeys)
          || ltb (length pubkeys) minsigs
          || ltb (length pubkeys) (length sigs))
        invalid_parameters
    ok (record {
      kind = pay_to_multisig_script_hash;
      minsigs = minsigs;
      pubkeys = pubkeys;
      sigs = if is_empty sigs then blanks (length pubkeys) else sigs;
      redeem_script = multisig_redeem_script minsigs pubkeys;
      hash = hash160 (multisig_redeem_script minsigs pubkeys);
    })

  -- The constructor from a kind, keys and signatures.
  unfoldable pub make : Kind → ℕ → List Bytes → List Bytes → Result Script
  unfolding make_single make_multisig
  make pay_to_pubkey minsigs pubkeys sigs = make_single pay_to_pubkey minsigs pubkeys sigs
  make pay_to_pubkey_hash minsigs pubkeys sigs = make_single pay_to_pubkey_hash minsigs pubkeys sigs
  make pay_to_multisig_script_hash minsigs pubkeys sigs = make_multisig minsigs pubkeys sigs
  make unknown minsigs pubkeys sigs = ok (record {
    kind = unknown;
    minsigs = minsigs;
    pubkeys = pubkeys;
    sigs = sigs;
    redeem_script = [];
    hash = [];
  })

unfoldable pub txoutscript : Script → Result Bytes
unfolding op_push_data at
txoutscript s = elim s.kind [
  | unknown ↦ ok []
  | pay_to_pubkey ↦ at s.pubkeys 0 >>= λ key. ok (op_push_data (length key) ++ (key ++ (0xac ∷ [])))
  | pay_to_pubkey_hash ↦ ok (0x76 ∷ 0xa9 ∷ 0x14 ∷ (s.hash ++ (0x88 ∷ 0xac ∷ [])))
  | pay_to_multisig_script_hash ↦ ok (0xa9 ∷ 0x14 ∷ (s.hash ++ (0x87 ∷ [])))
]

-- The loop over the signatures of `txinscript`: placeholders are written for `edit` only.
unfoldable pub push_sigs : SigKind → List Bytes → Bytes
unfolding op_push_data
push_sigs sigtype [] = []
push_sigs edit (sig ∷ sigs) = op_push_data (length sig) ++ (sig ++ push_sigs edit sigs)
push_sigs sigtype (sig ∷ sigs) =
    let tail = push_sigs sigtype sigs in
    if is_empty sig then tail else op_push_data (length sig) ++ (sig ++ tail)

-- What stands in front of the key or of the redeem script.
unfoldable pub signature_part : SigKind → Script → Bytes
unfolding push_sigs
signature_part sign s = []
signature_part sigtype s = elim s.kind [
  | pay_to_multisig_script_hash ↦ 0x00 ∷ push_sigs sigtype s.sigs
  | _ ↦ push_sigs sigtype s.sigs
]

-- The key or the redeem script.
unfoldable pub key_part : SigKind → Script → Result Bytes
unfolding txoutscript at op_push_data
key_part sign s = elim s.kind [
  | pay_to_pubkey_hash ↦ txoutscript s
  | pay_to_multisig_script_hash ↦ ok s.redeem_script
  | _ ↦ ok []
]
key_part sigtype s = elim s.kind [
  | pay_to_pubkey_hash ↦ at s.pubkeys 0 >>= λ key. ok (op_push_data (length key) ++ key)
  | pay_to_multisig_script_hash ↦ ok (op_push_data (length s.redeem_script) ++ s.redeem_script)
  | _ ↦ ok []
]

unfoldable pub txinscript : SigKind → Script → Result Bytes
unfolding signature_part key_part
txinscript sigtype s = do tail ← key_part sigtype s; ok (signature_part sigtype s ++ tail)
