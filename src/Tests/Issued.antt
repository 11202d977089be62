-- ===== src/Tests/Issued.antt =====
-- Endpoints on the fake ledger, on concrete data.
use naumachia.Prelude.{◌≡◌, refl, true, some, List, [], ◌∷◌, String, All, ok, err}
use naumachia.Prelude.Int.{ℤ, pos, mul_i64, div_i64, ltb_ℤ, wrap_i64, ◌*ℤ◌}
use naumachia.Errors.{Error, tx_too_early}
use naumachia.HashMap.{get, insert, erase, map_beq}
use naumachia.PolicyId.{ada}
use naumachia.Values.{add_one_value, add_values, try_subtract, empty}
use naumachia.Scripts.PlutusData.Numbers.{data_of_i64}
use naumachia.Output.{typed, sum_values, from_outputs}
use naumachia.Transaction.{
  TxActions, UnbuiltTransaction, to_unbuilt_tx, with_script_redeem, with_valid_range_secs,
  tx_actions,
}
use naumachia.Logic.{find_output}
use naumachia.TestLedger.InMemory.{
  InMemoryStorage, in_memory, at_address, remove_output, add_output, set_current_time,
}
use naumachia.TestLedger.Issue.{issue, not_issued, check_time_valid}
use naumachia.TestLedger.Client.{test_ledger_client}
use naumachia.TestLedger.Accepted.{Redeems, Mints}
use naumachia.SmartContract.{hit_endpoint, ScLogic}
use naumachia.SmartContract.Issued.{hit_endpoint-accepted}
use naumachia.TimeLocked.{
  TimeLockedEndpoints, TimeLockedLookups, claim, impl_claim, time_locked_logic,
}
use naumachia.TimeLocked.Claims.{hit_endpoint-claim}
use naumachia.Fixtures.{addresses, hex}
use naumachia.Fixtures.Contracts.{open_at, int_eq, lock_id, lock, locked_until}

lock_there :
    find_output lock_id (at_address ⦃lib = addresses⦄ "lock" (locked_until (pos 10000)).outputs)
    ≡ some lock
unfolding find_output at_address
lock_there = refl

too_soon : ltb_ℤ (pos 10000) (mul_i64 (div_i64 (pos 15000) 1000) (pos 1000)) ≡ true
unfolding wrap_i64 ◌*ℤ◌
too_soon = refl

hit_endpoint-claim_example :
    hit_endpoint ⦃lib = addresses⦄
      (time_locked_logic (ok (open_at "lock")))
      (test_ledger_client (in_memory ⦃lib = addresses⦄) addresses hex data_of_i64 (171 ∷ []))
      (claim lock_id)
      (locked_until (pos 10000))
    ≡ (err (Error.ledger_client (not_issued tx_too_early)), locked_until (pos 10000))
hit_endpoint-claim_example =
    hit_endpoint-claim addresses hex data_of_i64 (171 ∷ []) (open_at "lock") "lock"
      (locked_until (pos 10000)) lock_id lock (pos 15000) refl lock_there refl too_soon

abbrev logic :
    ScLogic TimeLockedEndpoints TimeLockedLookups
      (List (naumachia.Output.Output ℤ))
      String
      ℤ
      (Unit {0})
      (InMemoryStorage String ℤ)
logic = time_locked_logic (ok (open_at "lock"))

abbrev after : InMemoryStorage String ℤ
after =
    (hit_endpoint ⦃lib = addresses⦄ logic
      (test_ledger_client (in_memory ⦃lib = addresses⦄) addresses hex data_of_i64 (171 ∷ []))
      (claim lock_id) (locked_until (pos 20000))).1

claim_issued :
    hit_endpoint ⦃lib = addresses⦄ logic
      (test_ledger_client (in_memory ⦃lib = addresses⦄) addresses hex data_of_i64 (171 ∷ []))
      (claim lock_id)
      (locked_until (pos 20000))
    ≡ (ok "ab", after)
unfolding hit_endpoint time_locked_logic impl_claim test_ledger_client find_output at_address
    with_script_redeem with_valid_range_secs tx_actions to_unbuilt_tx issue check_time_valid
    wrap_i64 ◌*ℤ◌ try_subtract sum_values add_values add_one_value insert empty ada get from_outputs
    erase remove_output map_beq add_output set_current_time
claim_issued = refl

hit_endpoint-accepted_example :
    (actions : TxActions String ℤ (Unit {0})) × (u : InMemoryStorage String ℤ)
    × (tx : UnbuiltTransaction String ℤ (Unit {0})) × (logic.handle_endpoint
          (test_ledger_client (in_memory ⦃lib = addresses⦄) addresses hex data_of_i64 (171 ∷ []))
          (claim lock_id)
          (locked_until (pos 20000))
        ≡ (ok actions, u))
    × (to_unbuilt_tx ⦃lib = addresses⦄ actions ≡ ok tx)
    × ("ab" ≡ hex.encode (171 ∷ []))
    × Redeems addresses hex data_of_i64 tx u.signer [] tx.script_inputs
    × All (Mints addresses hex data_of_i64 tx u.signer) tx.minting
hit_endpoint-accepted_example =
    hit_endpoint-accepted addresses hex data_of_i64 logic (claim lock_id) (171 ∷ [])
      (locked_until (pos 20000)) after "ab" claim_issued
