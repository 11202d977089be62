-- ===== src/CheckingAccount/Pull.antt =====
-- A pull from a checking account (sample-dApps/checking_account/src/endpoints/pull.rs).
use naumachia.Prelude.{ℕ, none, some, if◌then◌else◌, Outcome, ok, err, panic, map_err}
use naumachia.Prelude.Int.{ℤ, add_i64, div_i64, ltb_ℤ}
use naumachia.Address.{Network}
use naumachia.Errors.{
  ScriptError, ScLogicError, from_ledger_client, from_script, OutputId, too_early_to_pull,
}
use naumachia.Effects.{Run, ◌>>=◌, ◌>>◌, call, lift, return}
use naumachia.Scripts.{Validator}
use naumachia.Output.{Output}
use naumachia.Transaction.{
  v2, tx_actions, with_script_init, with_script_redeem, with_valid_range_secs,
}
use naumachia.Logic.{endpoint_lc, endpoint_dapp, found_output}
use naumachia.CheckingAccount.{CheckingAccountScripts, Actions, Client}
use naumachia.CheckingAccount.Datum.{CheckingAccountDatums, checking_account, allowed_puller}
use naumachia.CheckingAccount.Owner.{datum_at, without_lovelace}

-- The puller with its next time, and the time that was due; `unimplemented!` panics.
unfoldable pub next_puller :
    CheckingAccountDatums → Outcome ScLogicError (ℤ × CheckingAccountDatums)
next_puller (allowed_puller old_allowed_puller) =
    let old_pull_time = old_allowed_puller.next_pull in
    let next_pull = add_i64 old_pull_time old_allowed_puller.period in
    ok (old_pull_time, allowed_puller (record old_allowed_puller { next_pull = next_pull }))
next_puller (checking_account _) = panic

unfoldable pub check_due : ℤ → ℤ → Outcome ScLogicError (Unit {0})
check_due old_pull_time current_time =
    if ltb_ℤ current_time old_pull_time
    then err (endpoint_dapp (too_early_to_pull old_pull_time current_time))
    else ok tt

module _ {A S : Type 0} (scripts : CheckingAccountScripts A) (client : Client A S) where
  -- An output that a validator locks: the validator, its address, the output.
  unfoldable pub locked_output :
      Outcome ScriptError (Validator A CheckingAccountDatums (Unit {0}))
      → Network
      → OutputId
      → Run S ScLogicError
          (Validator A CheckingAccountDatums (Unit {0}) × A × Output CheckingAccountDatums)
  locked_output script network output_id = do
    validator ← lift (map_err from_script script)
    address ← lift (map_err from_script (validator.address network))
    outputs ← call from_ledger_client (client.all_outputs_at_address address)
    output ← lift (found_output output_id outputs)
    return (validator, address, output)

  unfoldable pub pull_from_account : OutputId → OutputId → ℕ → Run S ScLogicError (Actions A)
  unfolding locked_output next_puller check_due datum_at without_lovelace with_script_redeem
      with_script_init with_valid_range_secs
  pull_from_account allow_pull_output_id checking_account_output_id amount = do
    network ← call from_ledger_client client.network
    (allow_pull_validator, allow_pull_address, allow_pull_output) ←
        locked_output scripts.pull_validator network allow_pull_output_id
    (validator, checking_account_address, checking_account_output) ←
        locked_output scripts.checking_account_validator network checking_account_output_id
    old_allow_pull_datum ← lift (datum_at allow_pull_output_id allow_pull_output)
    (old_pull_time, new_allow_pull_datum) ← lift (next_puller old_allow_pull_datum)
    current_time ← call endpoint_lc client.current_time_secs
    lift (check_due old_pull_time current_time)
    new_checking_account_datum ← lift (datum_at checking_account_output_id checking_account_output)
    new_account_value ←
        lift (without_lovelace checking_account_output_id checking_account_output.values amount)
    let pulling = with_script_redeem (tx_actions v2) allow_pull_output tt allow_pull_validator
    let pulled =
        with_script_init pulling new_allow_pull_datum allow_pull_output.values allow_pull_address
    let redeeming = with_script_redeem pulled checking_account_output tt validator
    let actions =
        with_script_init redeeming new_checking_account_datum new_account_value
          checking_account_address
    return (with_valid_range_secs actions (some (div_i64 current_time 1000)) none)
