-- ===== src/TimeLocked.antt =====
-- The time-locked dApp (sample-dApps/time-locked-contract/src): an amount is locked until a time, the
-- datum, in milliseconds. The compiled script is a parameter.
pub mod Claims
use naumachia.Prelude.{ℕ, Option, none, some, List, take, Outcome, ok, err, map_err}
use naumachia.Prelude.Int.{ℤ, pos, add_i64, mul_i64, div_i64}
use naumachia.Errors.{
  ScriptError, ScLogicError, from_ledger_client, from_script, OutputId, output_not_found,
}
use naumachia.Effects.{Run, ◌>>=◌, call, lift, return}
use naumachia.PolicyId.{lovelace}
use naumachia.Values.{empty, add_one_value}
use naumachia.Scripts.{Validator}
use naumachia.Output.{Output, DatumKind, typed, untyped, no_datum}
use naumachia.Transaction.{
  TxActions, v2, tx_actions, with_script_init, with_script_redeem, with_valid_range_secs,
}
use naumachia.LedgerClient.{LedgerClient}
use naumachia.SmartContract.{ScLogic}
use naumachia.Logic.{endpoint_dapp, found_output}

pub data TimeLockedEndpoints : Type 0 where
  -- The amount, and the seconds after which it can be claimed.
  lock : ℕ → ℤ → TimeLockedEndpoints
  claim : OutputId → TimeLockedEndpoints

pub data TimeLockedLookups : Type 0 where
  list_active_contracts : ℕ → TimeLockedLookups

-- The seconds of a datum; an output with no typed one is reported as not found.
unfoldable pub lower_bound_of : OutputId → DatumKind ℤ → Outcome ScLogicError ℤ
lower_bound_of output_id (typed inner) = ok (div_i64 inner 1000)
lower_bound_of output_id (untyped _) = err (endpoint_dapp (output_not_found output_id))
lower_bound_of output_id no_datum = err (endpoint_dapp (output_not_found output_id))

module _ {A S : Type 0} (script : Outcome ScriptError (Validator A ℤ (Unit {0})))
    (client : LedgerClient A ℤ (Unit {0}) S) where
  unfoldable pub impl_lock : ℕ → ℤ → Run S ScLogicError (TxActions A ℤ (Unit {0}))
  unfolding add_one_value with_script_init
  impl_lock amount after_secs = do
    network ← call from_ledger_client client.network
    let values = add_one_value empty lovelace amount
    validator ← lift (map_err from_script script)
    address ← lift (map_err from_script (validator.address network))
    current_time ← call from_ledger_client client.current_time_secs
    let lock_timestamp = mul_i64 (add_i64 current_time after_secs) (pos 1000)
    return (with_script_init (tx_actions v2) lock_timestamp values address)

  unfoldable pub impl_claim : OutputId → Run S ScLogicError (TxActions A ℤ (Unit {0}))
  unfolding lower_bound_of with_script_redeem with_valid_range_secs
  impl_claim output_id = do
    network ← call from_ledger_client client.network
    validator ← lift (map_err from_script script)
    address ← lift (map_err from_script (validator.address network))
    outputs ← call from_ledger_client (client.all_outputs_at_address address)
    output ← lift (found_output output_id outputs)
    lower_bound ← lift (lower_bound_of output_id output.datum)
    let redeeming = with_script_redeem (tx_actions v2) output tt validator
    return (with_valid_range_secs redeeming (some lower_bound) none)

  unfoldable pub impl_list_active_contracts : ℕ → Run S ScLogicError (List (Output ℤ))
  impl_list_active_contracts count = do
    network ← call from_ledger_client client.network
    validator ← lift (map_err from_script script)
    address ← lift (map_err from_script (validator.address network))
    outputs ← call from_ledger_client (client.outputs_at_address address count)
    return (take count outputs)

module _ {A S : Type 0} (script : Outcome ScriptError (Validator A ℤ (Unit {0}))) where
  unfoldable pub handle_endpoint :
      LedgerClient A ℤ (Unit {0}) S
      → TimeLockedEndpoints
      → Run S ScLogicError (TxActions A ℤ (Unit {0}))
  unfolding impl_lock impl_claim
  handle_endpoint client (lock amount timestamp) = impl_lock script client amount timestamp
  handle_endpoint client (claim output_id) = impl_claim script client output_id

  unfoldable pub lookup_contracts :
      LedgerClient A ℤ (Unit {0}) S → TimeLockedLookups → Run S ScLogicError (List (Output ℤ))
  unfolding impl_list_active_contracts
  lookup_contracts client (list_active_contracts count) =
      impl_list_active_contracts script client count

  unfoldable pub time_locked_logic :
      ScLogic TimeLockedEndpoints TimeLockedLookups (List (Output ℤ)) A ℤ (Unit {0}) S
  unfolding handle_endpoint lookup_contracts
  time_locked_logic = record { handle_endpoint = handle_endpoint; lookup = lookup_contracts }
