-- ===== src/AlwaysSucceeds.antt =====
-- The always-succeeds dApp (sample-dApps/always-succeeds-contract/src): anyone can claim what is
-- locked. The compiled script is a parameter.
use naumachia.Prelude.{ℕ, List, take, Outcome, expect}
use naumachia.Address.{AddressLib}
use naumachia.Errors.{ScriptError, ScLogicError, OutputId}
use naumachia.Effects.{Run, ◌>>=◌, call, lift, return}
use naumachia.PolicyId.{lovelace}
use naumachia.Values.{empty, add_one_value}
use naumachia.Scripts.{Validator}
use naumachia.Output.{Output}
use naumachia.Transaction.{TxActions, v2, tx_actions, with_script_init, with_script_redeem}
use naumachia.LedgerClient.{LedgerClient}
use naumachia.SmartContract.{ScLogic}
use naumachia.Logic.{lookup_lc, found_output, script_at}

pub data AlwaysSucceedsEndpoints : Type 0 where
  lock : ℕ → AlwaysSucceedsEndpoints
  claim : OutputId → AlwaysSucceedsEndpoints

pub data AlwaysSucceedsLookups : Type 0 where
  list_active_contracts : ℕ → AlwaysSucceedsLookups

module _ {A S : Type 0} (script : Outcome ScriptError (Validator A (Unit {0}) (Unit {0})))
    (client : LedgerClient A (Unit {0}) (Unit {0}) S) where
  unfoldable pub impl_lock : ℕ → Run S ScLogicError (TxActions A (Unit {0}) (Unit {0}))
  unfolding add_one_value with_script_init
  impl_lock amount = do
    (_, address) ← script_at client script
    return (with_script_init (tx_actions v2) tt (add_one_value empty lovelace amount) address)

  unfoldable pub impl_claim : OutputId → Run S ScLogicError (TxActions A (Unit {0}) (Unit {0}))
  unfolding with_script_redeem
  impl_claim output_id = do
    (validator, address) ← script_at client script
    outputs ← call lookup_lc (client.all_outputs_at_address address)
    output ← lift (found_output output_id outputs)
    return (with_script_redeem (tx_actions v2) output tt validator)

  -- The address is printed, which takes its bech32 form.
  unfoldable pub impl_list_active_contracts :
      AddressLib A → ℕ → Run S ScLogicError (List (Output (Unit {0})))
  impl_list_active_contracts lib count = do
    (_, address) ← script_at client script
    _ ← lift (expect (lib.to_bech32 address))
    outputs ← call lookup_lc (client.outputs_at_address address count)
    return (take count outputs)

module _ {A S : Type 0} ⦃lib : AddressLib A⦄
    (script : Outcome ScriptError (Validator A (Unit {0}) (Unit {0}))) where
  unfoldable pub handle_endpoint :
      LedgerClient A (Unit {0}) (Unit {0}) S
      → AlwaysSucceedsEndpoints
      → Run S ScLogicError (TxActions A (Unit {0}) (Unit {0}))
  unfolding impl_lock impl_claim
  handle_endpoint client (lock amount) = impl_lock script client amount
  handle_endpoint client (claim output_id) = impl_claim script client output_id

  unfoldable pub lookup_contracts :
      LedgerClient A (Unit {0}) (Unit {0}) S
      → AlwaysSucceedsLookups
      → Run S ScLogicError (List (Output (Unit {0})))
  unfolding impl_list_active_contracts
  lookup_contracts client (list_active_contracts count) =
      impl_list_active_contracts script client lib count

  unfoldable pub always_succeeds_logic :
      ScLogic AlwaysSucceedsEndpoints AlwaysSucceedsLookups
        (List (Output (Unit {0})))
        A
        (Unit {0})
        (Unit {0})
        S
  unfolding handle_endpoint lookup_contracts
  always_succeeds_logic = record { handle_endpoint = handle_endpoint; lookup = lookup_contracts }
