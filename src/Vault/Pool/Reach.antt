-- ===== src/Vault/Pool/Reach.antt =====
-- What holds of a bin through all that the vault does with its scripts.
use coin_vault.Common.{
  Bytes, ℕ, ◌+◌, ◌*◌, ◌^◌, ◌≤◌, ◌<◌, ◌≡◌, refl, sym, ap, ◌∙◌, Bool, true, false, List, [], arith,
  Result, ◌>>=◌, ok-injective, ok,
}
use coin_vault.Vault.Scripts.{
  script_code, unused, change, issued, used, none_of, ScriptStatus, SigningScript,
}
use coin_vault.Vault.Scripts.Make.{DerivesKeys}
use coin_vault.Vault.Pool.{
  Pool, unused_pool_size, refill, try_refill, put_status, receive_status, issue, receive,
}
use coin_vault.Vault.Pool.Rows.{frontier}
use coin_vault.Vault.Pool.Refill.{IsWellFormed, Refilled, refill_lem}
use coin_vault.Vault.Pool.Relabel.{put_status-IsWellFormed}
use coin_vault.Vault.Pool.Issue.{issue_lem}

module _ (hash160 : Bytes → Bytes) (signing_keys : ℕ → Result (List Bytes)) (limit : ℕ) where
  -- There is room for the scripts of two refillings below the limit.
  abbrev pub HasRoom : Pool → Type 0
  HasRoom p = p.bin.script_count + 2 * unused_pool_size p.account_pool_size ≤ limit

  infix 40 ◌⟶◌
  -- The chain codes of the keychains are unlocked.
  pub data ◌⟶◌ : Pool → Pool → Type 0 where
    refilled : {p after : Pool} → refill hash160 signing_keys (ok tt) p ≡ ok after → p ⟶ after
    issuing :
        {p after : Pool} (label : Bytes) (index : ℕ)
        → 1 ≤ unused_pool_size p.account_pool_size
        → issue hash160 signing_keys (ok tt) label p ≡ ok (after, index)
        → p ⟶ after
    received :
        {p after : Pool} (sent_from_vault : Bool) (script : SigningScript)
        → script.index < p.bin.script_count
        → receive hash160 signing_keys (ok tt) sent_from_vault script p ≡ ok after
        → p ⟶ after

  -- A bin that has just been made, and what happens to it.
  pub data Reachable : Pool → Type 0 where
    created :
        {p : Pool}
        → p.scripts ≡ []
        → p.bin.script_count ≡ 0
        → p.bin.next_script_index ≡ 0
        → DerivesKeys signing_keys 0 limit p.bin.minsigs
        → Reachable p
    next : {p after : Pool} → Reachable p → HasRoom p → p ⟶ after → Reachable after

  -- The bin is well formed and its keychains serve it.
  pub record IsSound (p : Pool) : Type 0 where
    pub well_formed : IsWellFormed p
    pub derives : DerivesKeys signing_keys 0 limit p.bin.minsigs

  refilled-IsSound :
      (p after : Pool)
      → IsSound p
      → p.bin.script_count + unused_pool_size p.account_pool_size ≤ limit
      → refill hash160 signing_keys (ok tt) p ≡ ok after
      → IsSound after
  refilled-IsSound p after s room returns =
      let (full, filled, r) =
        refill_lem hash160 signing_keys (ok tt) p refl s.well_formed s.derives (omega arith) room in
      rw (ok-injective (sym filled ∙ returns)) at (sound full r)
    where
      sound : (full : Pool) → Refilled hash160 signing_keys p full → IsSound full
      sound full r = record {
        well_formed = r.well_formed;
        derives = rw (← r.same_minsigs) at s.derives;
      }

  put-IsSound :
      (p : Pool) (script : SigningScript) (status : ScriptStatus)
      → IsSound p
      → 1 < script_code status
      → script.index < p.bin.script_count
      → p.bin.script_count < 2 ^ 32
      → IsSound (put_status script status p)
  put-IsSound p script status s above inside small =
      let (w, count, minsigs) =
        put_status-IsWellFormed p script status s.well_formed above inside small in
      record { well_formed = w; derives = rw (← minsigs) at s.derives }

  -- Refilling behind a change of status, where the chain codes are unlocked.
  refilled_after :
      (p after : Pool)
      → IsSound p
      → p.bin.script_count + unused_pool_size p.account_pool_size ≤ limit
      → (try_refill (refill hash160 signing_keys (ok tt) p) p >>= λ (done, was_refilled). ok done)
        ≡ ok after
      → IsSound after
  unfolding try_refill
  refilled_after p after s room returns =
      let (full, filled, _) =
        refill_lem hash160 signing_keys (ok tt) p refl s.well_formed s.derives (omega arith) room in
      refilled-IsSound p after s room (filled ∙ (rw filled at returns))

  unused-IsSound :
      (p after : Pool) (script : SigningScript) (status : ScriptStatus)
      → IsSound p
      → HasRoom p
      → 1 < script_code status
      → script.index < p.bin.script_count
      → (try_refill
            (refill hash160 signing_keys (ok tt) (put_status script status p))
            (put_status script status p)
          >>= λ (done, was_refilled). ok done)
        ≡ ok after
      → IsSound after
  unused-IsSound p after script status s room above inside returns =
      let (_, count, _) =
        put_status-IsWellFormed p script status s.well_formed above inside
          (omega (arith, s.derives.inside)) in
      let size : (put_status script status p).account_pool_size ≡ p.account_pool_size =
        unfold put_status in refl in
      refilled_after (put_status script status p) after
        (put-IsSound p script status s above inside (omega (arith, s.derives.inside)))
        (rw (count, size) (omega arith)) returns

  received-IsSound :
      (p after : Pool) (to_change : Bool) (script : SigningScript) (status : ScriptStatus)
      → IsSound p
      → HasRoom p
      → script.index < p.bin.script_count
      → receive_status hash160 signing_keys (ok tt) to_change status script p ≡ ok after
      → IsSound after
  unfolding receive_status try_refill
  received-IsSound p after to_change script none_of s room inside returns =
      rw (ok-injective returns) at s
  received-IsSound p after to_change script change s room inside returns =
      rw (ok-injective returns) at s
  received-IsSound p after to_change script used s room inside returns =
      rw (ok-injective returns) at s
  received-IsSound p after to_change script issued s room inside returns =
      rw (ok-injective returns) at
        (put-IsSound p script used s (omega arith) inside (omega (arith, s.derives.inside)))
  received-IsSound p after true script unused s room inside returns =
      unused-IsSound p after script change s room (omega arith) inside returns
  received-IsSound p after false script unused s room inside returns =
      unused-IsSound p after script used s room (omega arith) inside returns

  issued-IsSound :
      (p after : Pool) (label : Bytes) (index : ℕ)
      → IsSound p
      → HasRoom p
      → 1 ≤ unused_pool_size p.account_pool_size
      → issue hash160 signing_keys (ok tt) label p ≡ ok (after, index)
      → IsSound after
  issued-IsSound p after label index s room some_size returns =
      let (full, done, w, _, _, minsigs) =
        issue_lem hash160 signing_keys (ok tt) label p refl s.well_formed s.derives (omega arith)
          room some_size in
      rw (ap (λ (r : Pool × ℕ). r.0) (ok-injective (sym done ∙ returns))) at (sound full w minsigs)
    where
      sound : (full : Pool) → IsWellFormed full → full.bin.minsigs ≡ p.bin.minsigs → IsSound full
      sound full w e = record { well_formed = w; derives = rw (← e) at s.derives }

  created-IsSound :
      (p : Pool)
      → p.scripts ≡ []
      → p.bin.script_count ≡ 0
      → p.bin.next_script_index ≡ 0
      → DerivesKeys signing_keys 0 limit p.bin.minsigs
      → IsSound p
  unfolding frontier
  created-IsSound p empty count first d = record {
    well_formed = record {
      numbered = rw empty tt;
      counted = rw (empty, count) refl;
      next = rw (empty, first) refl;
    };
    derives = d;
  }

  -- Whatever refills, issued scripts and received outputs a bin has seen since it was made empty,
  -- with keychains that derive at least minsigs, of at least 1, and at most 15 keys for each index
  -- up to a limit below 2^32 (a public key derives none from 2^31 on), chain codes that unlock, a
  -- pool size of at least 1 when a script is issued, and before each of them room for twice the
  -- pool size between the count of scripts and the limit: its scripts carry the indices from 0 on,
  -- it counts them, and its next index is one more than the largest index of a script that is not
  -- unused, or 0.
  pub Reachable-IsSound : (p : Pool) → Reachable p → IsSound p
  unfolding receive
  Reachable-IsSound p (created empty count first d) = created-IsSound p empty count first d
  Reachable-IsSound p (next {p = before} r room (refilled e)) =
      refilled-IsSound before p (Reachable-IsSound before r) (omega arith) e
  Reachable-IsSound p (next {p = before} r room (issuing label index some_size e)) =
      issued-IsSound before p label index (Reachable-IsSound before r) room some_size e
  Reachable-IsSound p (next {p = before} r room (received sent script inside e)) =
      received-IsSound before p _ script script.status (Reachable-IsSound before r) room inside e
