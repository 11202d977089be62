-- ===== src/TimeLocked/Claims.antt =====
-- Claims on the fake ledger (sample-dApps/time-locked-contract/src/logic.rs).
use naumachia.Prelude.{ℕ, ◌≡◌, refl, ap, ◌∙◌, true, List, [], ◌∷◌, none, some, ok, err, map_err, Eq}
use naumachia.Prelude.Int.{ℤ, pos, mul_i64, div_i64, ltb_ℤ}
use naumachia.Address.{AddressLib, testnet}
use naumachia.Errors.{Error, OutputId, tx_too_early}
use naumachia.Effects.{◌>>=◌, >>=-of-ok, call, lift}
use naumachia.Scripts.{Validator}
use naumachia.Scripts.PlutusData.{PlutusData}
use naumachia.Output.{Output, typed}
use naumachia.Transaction.{
  TxActions, UnbuiltTransaction, v2, tx_actions, with_script_redeem, with_valid_range_secs,
  to_unbuilt_tx,
}
use naumachia.Logic.{find_output}
use naumachia.TestLedger.InMemory.{InMemoryStorage, in_memory, at_address}
use naumachia.TestLedger.TxId.{HexLib}
use naumachia.TestLedger.Issue.{check_time_valid, not_issued}
use naumachia.TestLedger.Failures.{issue-out_of_time}
use naumachia.TestLedger.Client.{test_ledger_client}
use naumachia.SmartContract.{actions_of, hit_endpoint}
use naumachia.TimeLocked.{claim, impl_claim, lower_bound_of, time_locked_logic}

module _ {A : Type 0} ⦃d : Eq ℤ⦄ (lib : AddressLib A) (hex : HexLib) (into : ℤ → PlutusData)
    (random : List ℕ) (v : Validator A ℤ (Unit {0})) (a : A) (s : InMemoryStorage A ℤ)
    (id : OutputId) (o : Output ℤ) (deadline : ℤ) (there : v.address testnet ≡ ok a)
    (found : find_output id (at_address ⦃lib = lib⦄ a s.outputs) ≡ some o)
    (dated : o.datum ≡ typed deadline) where
  -- The actions of a claim.
  abbrev claiming : TxActions A ℤ (Unit {0})
  claiming =
      with_valid_range_secs (with_script_redeem (tx_actions v2) o tt v)
        (some (div_i64 deadline 1000)) none

  impl_claim-redeems :
      impl_claim (ok v) (test_ledger_client (in_memory ⦃lib = lib⦄) lib hex into random) id s
      ≡ (ok claiming, s)
  unfolding impl_claim test_ledger_client lower_bound_of
  impl_claim-redeems = rw (there, found, dated) refl

  abbrev claimed : UnbuiltTransaction A ℤ (Unit {0})
  claimed = record {
    script_version = v2;
    script_inputs = (o, tt, v) ∷ [];
    unbuilt_outputs = [];
    minting = [];
    specific_wallet_inputs = [];
    valid_range = (some (div_i64 deadline 1000), none);
  }

  claiming-claimed : to_unbuilt_tx ⦃lib = lib⦄ claiming ≡ ok claimed
  unfolding to_unbuilt_tx with_script_redeem with_valid_range_secs tx_actions
  claiming-claimed = refl

  -- On the fake ledger, a claim of an output that is there and has a typed datum is refused as too
  -- early, and changes nothing, while the ledger's time is below the datum rounded down to a multiple
  -- of 1000.
  pub hit_endpoint-claim :
      ltb_ℤ s.current_posix_time (mul_i64 (div_i64 deadline 1000) (pos 1000)) ≡ true
      → hit_endpoint ⦃lib = lib⦄
          (time_locked_logic (ok v))
          (test_ledger_client (in_memory ⦃lib = lib⦄) lib hex into random)
          (claim id)
          s
        ≡ (err (Error.ledger_client (not_issued tx_too_early)), s)
  unfolding hit_endpoint actions_of time_locked_logic test_ledger_client check_time_valid
  hit_endpoint-claim early =
      let client = test_ledger_client (in_memory ⦃lib = lib⦄) lib hex into random in
      let logic = time_locked_logic (ok v) in
      >>=-of-ok (actions_of ⦃lib = lib⦄ logic client (claim id))
        (λ x.
          lift (to_unbuilt_tx ⦃lib = lib⦄ x) >>= λ tx. call Error.ledger_client (client.issue tx))
        s (ap (λ p. (map_err Error.sc_logic p.0, p.1)) impl_claim-redeems)
      ∙ >>=-of-ok (lift (to_unbuilt_tx ⦃lib = lib⦄ claiming))
          (λ tx. call Error.ledger_client (client.issue tx)) s (ap (λ r. (r, s)) claiming-claimed)
      ∙ ap (λ p. (map_err Error.ledger_client p.0, p.1))
          (issue-out_of_time lib hex into claimed random s tx_too_early (rw (early) refl))
