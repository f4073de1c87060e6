-- ===== src/Vault/CreateTx/Conservation.antt =====
-- No money appears or disappears in a payment that the vault puts together.
use coin_vault.Common.{
  Bytes, le_cases, u64, ℕ, zero, suc, ◌+◌, ◌-◌, ◌^◌, ◌≤◌, ◌<◌, ◌≡◌, refl, sym, ap, ◌∙◌, ◌⊎◌, inl,
  inr, List, [], ◌∷◌, ◌++◌, arith, ltb, Bool-cases, ltb-true, ltb-false, leb-true, leb-false,
  Result, ◌>>=◌, >>=-eq-ok, ok-injective, insufficient_funds, err, ok,
}
use coin_vault.Vault.Inputs.{TxIn}
use coin_vault.Vault.Outputs.{TxOut, Receiver, Spending, from_signingscript, set_signingscript}
use coin_vault.Vault.Tx.{
  Tx, Status, new, unsigned, set, settle, number_inputs, number_outputs, missing_sig_count,
  to_coin_core,
}
use coin_vault.Wire.Transaction as CoinTx
use coin_vault.Vault.CreateTx.{
  Coin, add_values, select, choose_coins, spend, with_change, create_tx,
}

-- The amounts without wrap-around.
unfoldable pub coins_value : List Coin → ℕ
coins_value [] = 0
coins_value (c ∷ cs) = c.value + coins_value cs

unfoldable pub outputs_value : List TxOut → ℕ
outputs_value [] = 0
outputs_value (t ∷ ts) = t.value + outputs_value ts

add_values_lem :
    (total : ℕ) (ts : List TxOut)
    → total + outputs_value ts < 2 ^ 64
    → add_values total ts ≡ total + outputs_value ts
unfolding add_values outputs_value
add_values_lem total [] small = omega arith
add_values_lem total (t ∷ ts) small =
    let sum : u64 (total + t.value) ≡ total + t.value = omega arith in
    rw sum (omega (arith, add_values_lem (total + t.value) ts (omega arith)))

outputs_value-append :
    (ts : List TxOut) (t : TxOut) → outputs_value (ts ++ (t ∷ [])) ≡ outputs_value ts + t.value
unfolding outputs_value
outputs_value-append [] t = omega arith
outputs_value-append (s ∷ ts) t = omega (arith, outputs_value-append ts t)

outputs_value-number_outputs :
    (i : ℕ) (ts : List TxOut) → outputs_value (number_outputs i ts) ≡ outputs_value ts
unfolding outputs_value number_outputs
outputs_value-number_outputs i [] = refl
outputs_value-number_outputs i (t ∷ ts) = omega (arith, outputs_value-number_outputs (i + 1) ts)

-- The chosen coins are the first ones, the total is theirs, and it reaches the amount if that of
-- all coins does.
select_lem :
    (desired total : ℕ) (coins : List Coin)
    → total + coins_value coins < 2 ^ 64
    → (rest : List Coin) × (coins ≡ (select desired total coins).1 ++ rest)
      × ((select desired total coins).0 ≡ total + coins_value (select desired total coins).1)
      × (desired ≤ total + coins_value coins → desired ≤ (select desired total coins).0)
unfolding select coins_value
select_lem desired total [] small = ([], refl, omega arith, λ h. omega arith)
select_lem desired total (c ∷ cs) small =
    let sum : u64 (total + c.value) ≡ total + c.value = omega arith in
    let (rest, prefix, ends, enough) = select_lem desired (total + c.value) cs (omega arith) in
    elim (le_cases desired (total + c.value)) [
      | inl reached ↦
          rw (sum, leb-true desired (total + c.value) reached) (cs, refl, omega arith, λ h. reached)
      | inr short ↦
          rw (sum, leb-false desired (total + c.value) short)
            (
              rest,
              ap (λ (t : List Coin). c ∷ t) prefix,
              omega (arith, ends),
              λ h. enough (omega arith),
            )
    ]

coins_value-append : (cs ds : List Coin) → coins_value (cs ++ ds) ≡ coins_value cs + coins_value ds
unfolding coins_value
coins_value-append [] ds = omega arith
coins_value-append (c ∷ cs) ds = omega (arith, coins_value-append cs ds)

-- For coins whose sum is below 2^64, the choice of coins throws if the sum is below the amount;
-- otherwise it succeeds with the first of the coins in order, whose value is exactly the amount
-- and the change.
choose_coins_lem :
    (desired : ℕ) (coins : List Coin)
    → coins_value coins < 2 ^ 64
    → ((coins_value coins < desired) × (choose_coins desired coins ≡ err insufficient_funds))
      ⊎ ((desired ≤ coins_value coins)
          × (chosen : List Coin) × (rest : List Coin) × (change : ℕ) × (choose_coins desired coins
              ≡ ok (chosen, change))
          × (coins ≡ chosen ++ rest)
          × (coins_value chosen ≡ desired + change))
unfolding choose_coins
choose_coins_lem desired coins small =
    let (rest, prefix, ends, enough) = select_lem desired 0 coins (omega arith) in
    let parts : coins_value coins ≡ coins_value chosen + coins_value rest =
      ap coins_value prefix ∙ coins_value-append chosen rest in
    elim (le_cases desired (coins_value coins)) [
      | inr poor ↦ inl (poor, rw (ltb-true total desired (omega (arith, ends, parts))) refl)
      | inl rich ↦
          let reached = enough (omega arith) in
          inr (
            rich,
            chosen,
            rest,
            total - desired,
            rw (ltb-false total desired reached) refl,
            prefix,
            omega (arith, ends, reached),
          )
    ]
  where
    total : ℕ
    total = (select desired 0 coins).0

    chosen : List Coin
    chosen = (select desired 0 coins).1

with_change_lem :
    (garbage : ℕ) (garbage_status : Spending) (change_script : Result Receiver) (change : ℕ)
    (txouts : List TxOut) {outputs : List TxOut}
    → with_change garbage garbage_status change_script change txouts ≡ ok outputs
    → outputs_value outputs ≡ outputs_value txouts + change
unfolding with_change from_signingscript set_signingscript
with_change_lem garbage garbage_status change_script zero txouts returns =
    omega (arith, ap outputs_value (ok-injective returns))
with_change_lem garbage garbage_status change_script (suc n) txouts returns =
    let (receiver, _, result) = >>=-eq-ok change_script _ returns in
    ap outputs_value (sym (ok-injective result)) ∙ outputs_value-append txouts _

settle_parts :
    (sha256_2 : Bytes → Bytes) (core : CoinTx.Transaction) (given : Status) (tx : Tx) (missing : ℕ)
    → ((settle sha256_2 core given tx missing).txins ≡ tx.txins)
      × ((settle sha256_2 core given tx missing).txouts ≡ tx.txouts)
unfolding settle
settle_parts sha256_2 core given tx missing = elim (Bool-cases (ltb 0 missing)) [
  | inl e ↦ (rw e refl, rw e refl)
  | inr e ↦ (rw e refl, rw e refl)
]

-- What `set` keeps of its parts.
set_parts :
    (hash160 sha256_2 : Bytes → Bytes) (garbage : ℕ) (tx : Tx) (version : ℕ) (txins : List TxIn)
    (txouts : List TxOut) (locktime timestamp : ℕ) (given : Status) {filled : Tx}
    → set hash160 garbage sha256_2 tx version txins txouts locktime timestamp given ≡ ok filled
    → (filled.txins ≡ number_inputs 0 txins) × (filled.txouts ≡ number_outputs 0 txouts)
unfolding set settle
set_parts hash160 sha256_2 garbage tx version txins txouts locktime timestamp given returns =
    let parts : Tx = record tx {
      version = version;
      txins = number_inputs 0 txins;
      txouts = number_outputs 0 txouts;
      locktime = locktime;
      timestamp = timestamp;
    } in
    let (core, _, rest) =
      >>=-eq-ok (to_coin_core parts)
        (λ (core : CoinTx.Transaction). missing_sig_count hash160 garbage parts >>= λ missing.
          ok (settle sha256_2 core given parts missing))
        returns in
    let (missing, _, settled) = >>=-eq-ok (missing_sig_count hash160 garbage parts) _ rest in
    let (ins, outs) = settle_parts sha256_2 core given parts missing in
    let same = ok-injective settled in
    (sym (ap (λ (t : Tx). t.txins) same) ∙ ins, sym (ap (λ (t : Tx). t.txouts) same) ∙ outs)

module _ (hash160 sha256_2 : Bytes → Bytes) (garbage : ℕ) (garbage_status : Spending)
    (shuffle : List TxOut → List TxOut) where
  -- When createTx_unwrapped returns a transaction, for outputs and fee and for coins whose sums
  -- are below 2^64 and a shuffle that keeps the sum of the outputs, its inputs spend the first of
  -- the coins in order, and the value of these coins is exactly the value of the outputs of the
  -- transaction and the fee.
  pub create_tx_conserves :
      (version locktime : ℕ) (txouts : List TxOut) (fee : ℕ) (coins : List Coin)
      (change_script : Result Receiver) (now : ℕ) {tx : Tx}
      → ((ts : List TxOut) → outputs_value (shuffle ts) ≡ outputs_value ts)
      → fee + outputs_value txouts < 2 ^ 64
      → coins_value coins < 2 ^ 64
      → create_tx hash160 sha256_2 garbage garbage_status shuffle version locktime txouts fee coins
          change_script now
        ≡ ok tx
      → (chosen : List Coin) × (rest : List Coin) × (coins ≡ chosen ++ rest)
        × (tx.txins ≡ number_inputs 0 (spend garbage chosen))
        × (coins_value chosen ≡ outputs_value tx.txouts + fee)
  unfolding create_tx
  create_tx_conserves version locktime txouts fee coins change_script now permutes small few
        returns =
      let sum : add_values fee txouts ≡ fee + outputs_value txouts =
        add_values_lem fee txouts small in
      elim (choose_coins_lem (fee + outputs_value txouts) coins few) [
        | inl (_, refused) ↦ absurd (throws (rw (sum, refused) at returns))
        | inr (_, chosen, rest, change, chose, prefix, balance) ↦
            let (outputs, changed, filled) =
              >>=-eq-ok (with_change garbage garbage_status change_script change txouts)
                (λ (outputs : List TxOut).
                  set hash160 garbage sha256_2 new version (spend garbage chosen) (shuffle outputs)
                    locktime now unsigned)
                (rw (sum, chose) at returns) in
            let (ins, outs) =
              set_parts hash160 sha256_2 garbage new version (spend garbage chosen)
                (shuffle outputs) locktime now unsigned filled in
            (
              chosen,
              rest,
              prefix,
              ins,
              omega (
                arith,
                balance,
                with_change_lem garbage garbage_status change_script change txouts changed,
                ap outputs_value outs,
                outputs_value-number_outputs 0 (shuffle outputs),
                permutes outputs,
              ),
            )
      ]
    where
      throws : {tx : Tx} → err insufficient_funds ≡ ok tx → ⊥
      throws e = cc
