-- ===== src/Vault/Pool.antt =====
-- The pool of unused signing scripts of a bin: refillAccountBinPool_unwrapped and
-- issueAccountBinSigningScript_unwrapped of CoinDB/src/Vault.cpp.
use coin_vault.Common.{
  Bytes, ℕ, zero, suc, ◌-◌, ◌*◌, min, max, Bool, true, false, not, ◌&&◌, Option, none, some, List,
  [], ◌∷◌, ◌++◌, ltb, ◌==◌, if◌then◌else◌, Result, ◌>>=◌, ◌>>◌, out_of_scripts,
  keychain_chain_code_locked, fault, stuck, err, ok,
}
use coin_vault.Vault.Scripts.{
  ScriptStatus, unused, change, issued, used, is_unused, SigningScript, AccountBin, set_status,
  mark_issued, new_signing_script,
}
pub mod Rows
pub mod Gaps
pub mod Refill
pub mod Relabel
pub mod Issue
pub mod Reach

-- A bin and its rows in the table of scripts, and the size of the pool if the bin has an account.
-- No two rows of a bin have the same index, which stands here for the key of the row.
pub record Pool : Type 0 where
  pub bin : AccountBin
  pub scripts : List SigningScript
  pub account_pool_size : Option ℕ

-- `DEFAULT_UNUSED_POOL_SIZE` without an account.
abbrev pub unused_pool_size : Option ℕ → ℕ
unused_pool_size none = 25
unused_pool_size (some size) = size

-- `max(index)` over the scripts that are not unused; 0 when there is none.
unfoldable pub max_index : List SigningScript → ℕ
max_index [] = 0
max_index (s ∷ ss) = if is_unused s.status then max_index ss else max s.index (max_index ss)

unfoldable pub count_unused : List SigningScript → ℕ
count_unused [] = 0
count_unused (s ∷ ss) = if is_unused s.status then suc (count_unused ss) else count_unused ss

-- Unused scripts with an index below the largest one in use become issued.
unfoldable pub issue_below : ℕ → List SigningScript → AccountBin → List SigningScript × AccountBin
unfolding set_status
issue_below largest [] bin = ([], bin)
issue_below largest (s ∷ ss) bin =
    let (script, marked) =
      if is_unused s.status && ltb s.index largest then set_status issued s bin else (s, bin) in
    let (later, end) = issue_below largest ss marked in (script ∷ later, end)

abbrev pub least : ℕ → Option ℕ → ℕ
least i none = i
least i (some j) = min i j

-- The smallest index of an unused script.
unfoldable pub first_unused : List SigningScript → Option ℕ
first_unused [] = none
first_unused (s ∷ ss) =
    let later = first_unused ss in if is_unused s.status then some (least s.index later) else later

-- The row with this index gets a label and a status.
unfoldable pub relabel : ℕ → Bytes → ScriptStatus → List SigningScript → List SigningScript
relabel index label status [] = []
relabel index label status (s ∷ ss) =
    (if s.index == index then record s { label = label; status = status } else s)
    ∷ relabel index label status ss

-- The script with this index is issued; the bin is told twice.
unfoldable pub hand_out : Option ℕ → Bytes → Pool → Result (Pool × ℕ)
unfolding mark_issued relabel
hand_out none label pool = err out_of_scripts
hand_out (some index) label pool = ok (
  record pool {
    bin = mark_issued index (mark_issued index pool.bin);
    scripts = relabel index label issued pool.scripts;
  },
  index,
)

-- `script->status(status)` for a script of the bin.
unfoldable pub put_status : SigningScript → ScriptStatus → Pool → Pool
unfolding set_status relabel
put_status script status pool = record pool {
  bin = (set_status status script pool.bin).1;
  scripts = relabel script.index script.label status pool.scripts;
}

-- `catch (const KeychainChainCodeLockedException& e)`: whether the pool was refilled.
unfoldable pub try_refill : Result Pool → Pool → Result (Pool × Bool)
try_refill (ok refilled) pool = ok (refilled, true)
try_refill (err keychain_chain_code_locked) pool = ok (pool, false)
try_refill (err e) pool = err e
try_refill fault pool = fault
try_refill stuck pool = stuck

module _ (hash160 : Bytes → Bytes) (signing_keys : ℕ → Result (List Bytes)) where
  -- The loop that makes new scripts.
  unfoldable pub add_scripts : ℕ → Pool → Result Pool
  unfolding new_signing_script
  add_scripts zero pool = ok pool
  add_scripts (suc n) pool = do
    (script, bin) ← new_signing_script hash160 signing_keys [] pool.bin
    add_scripts n (record pool { bin = bin; scripts = pool.scripts ++ (script ∷ []) })

  -- `unlock` stands for unlockAccountBinChainCodes_unwrapped.
  module _ (unlock : Result (Unit {0})) where
    unfoldable pub refill : Pool → Result Pool
    unfolding max_index issue_below count_unused add_scripts
    refill pool = do
      unlock
      let largest = max_index pool.scripts
      let (scripts, bin) =
          if ltb 0 largest
          then issue_below largest pool.scripts pool.bin
          else (pool.scripts, pool.bin)
      let size = unused_pool_size pool.account_pool_size
      add_scripts (size - count_unused scripts) (record pool { bin = bin; scripts = scripts })

    -- The second value is the index of the script that is returned.
    unfoldable pub issue : Bytes → Pool → Result (Pool × ℕ)
    unfolding refill try_refill first_unused hand_out
    issue label pool = do
      (ready, refilled) ← try_refill (refill pool) pool
      (handed, index) ← hand_out (first_unused ready.scripts) label ready
      if refilled then (refill handed >>= λ full. ok (full, index)) else ok (handed, index)

    -- `switch (script->status())` of insertTx_unwrapped, for an output that pays to the script.
    unfoldable pub receive_status : Bool → ScriptStatus → SigningScript → Pool → Result Pool
    unfolding put_status refill try_refill
    receive_status to_change unused script pool =
        let marked = put_status script (if to_change then change else used) pool in
        try_refill (refill marked) marked >>= λ (done, refilled). ok done
    receive_status to_change issued script pool = ok (put_status script used pool)
    receive_status to_change status script pool = ok pool

    unfoldable pub receive : Bool → SigningScript → Pool → Result Pool
    unfolding receive_status
    receive sent_from_vault script pool =
        receive_status (sent_from_vault && (pool.bin.index == 1)) script.status script pool
