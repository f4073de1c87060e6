-- ===== src/Vault/Scripts.antt =====
-- The classes SigningScript and AccountBin of CoinDB/src/Schema.h and Schema.cpp: the scripts that a
-- bin of an account makes from its keys, one for each index.
use coin_vault.Common.{
  Bytes, u32, ℕ, ◌+◌, ◌*◌, Bool, true, false, ◌&&◌, ◌||◌, List, [], ◌∷◌, ltb, leb, ◌==◌,
  if◌then◌else◌, Result, ◌>>=◌, ◌>>◌, ok,
}
use coin_vault.Script.Object.{make, txinscript, txoutscript, edit, pay_to_multisig_script_hash}
pub mod Make

-- `SigningScript::status_t`
pub data ScriptStatus : Type 0 where
  none_of unused change issued used : ScriptStatus

abbrev pub script_code : ScriptStatus → ℕ
script_code none_of = 0
script_code unused = 1
script_code change = 2
script_code issued = 4
script_code used = 8

abbrev pub is_unused : ScriptStatus → Bool
is_unused unused = true
is_unused _ = false

pub record SigningScript : Type 0 where
  pub index : ℕ
  pub label : Bytes
  pub status : ScriptStatus
  pub txinscript : Bytes
  pub txoutscript : Bytes

pub record AccountBin : Type 0 where
  pub index : ℕ
  pub name : Bytes
  pub script_count : ℕ
  pub next_script_index : ℕ
  pub minsigs : ℕ

-- `<` on vectors of bytes.
unfoldable pub bytes_less : Bytes → Bytes → Bool
bytes_less xs [] = false
bytes_less [] (y ∷ ys) = true
bytes_less (x ∷ xs) (y ∷ ys) = ltb x y || ((x == y) && bytes_less xs ys)

unfoldable pub insert_key : Bytes → List Bytes → List Bytes
unfolding bytes_less
insert_key key [] = key ∷ []
insert_key key (k ∷ ks) =
    let tail = insert_key key ks in if bytes_less k key then k ∷ tail else key ∷ (k ∷ ks)

-- `std::sort` of the keys by their public keys.
unfoldable pub sort_keys : List Bytes → List Bytes
unfolding insert_key
sort_keys [] = []
sort_keys (k ∷ ks) = insert_key k (sort_keys ks)

unfoldable pub mark_issued : ℕ → AccountBin → AccountBin
mark_issued script_index bin =
    if leb bin.next_script_index script_index
    then record bin { next_script_index = u32 (script_index + 1) }
    else bin

-- `SigningScript::status` also tells the bin of the script.
unfoldable pub set_status : ScriptStatus → SigningScript → AccountBin → SigningScript × AccountBin
unfolding mark_issued
set_status status script bin = (
  record script { status = status },
  if ltb 1 (script_code status) then mark_issued script.index bin else bin,
)

-- `hash160` stands for ripemd160 after sha256, and `signing_keys` for the public signing keys that
-- the keychains of the bin derive for an index.
module _ (hash160 : Bytes → Bytes) (signing_keys : ℕ → Result (List Bytes)) where
  -- The constructor of class SigningScript.
  unfoldable pub make_script : AccountBin → ℕ → Bytes → ScriptStatus → Result SigningScript
  unfolding sort_keys make txinscript txoutscript
  make_script bin index label status = do
    keys ← signing_keys index
    script ← make hash160 pay_to_multisig_script_hash bin.minsigs (sort_keys keys) []
    txin ← txinscript edit script
    txout ← txoutscript script
    ok (record {
      index = index;
      label = label;
      status = status;
      txinscript = txin;
      txoutscript = txout;
    })

  -- `script_count_++` is in `uint32_t`.
  unfoldable pub new_signing_script : Bytes → AccountBin → Result (SigningScript × AccountBin)
  unfolding make_script
  new_signing_script label bin = do
    script ← make_script bin bin.script_count label unused
    ok (script, record bin { script_count = u32 (bin.script_count + 1) })
