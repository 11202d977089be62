-- ===== src/SmartContract.antt =====
-- Running a smart contract (src/smart_contract.rs, src/logic.rs): an endpoint of its logic gives
-- actions, which become a transaction, which is issued. What is logged is left out.
pub mod Issued
use naumachia.Prelude.{String, map_err}
use naumachia.Address.{AddressLib}
use naumachia.Errors.{Error, ScLogicError, LedgerClientError}
use naumachia.Effects.{Run, ◌>>=◌, call, lift}
use naumachia.Transaction.{TxActions, to_unbuilt_tx}
use naumachia.LedgerClient.{LedgerClient}

-- The trait `SCLogic`, for a ledger client with the state `S`.
pub record ScLogic (Endpoint Lookup LookupResponse A D R S : Type 0) : Type 0 where
  pub handle_endpoint : LedgerClient A D R S → Endpoint → Run S ScLogicError (TxActions A D R)
  pub lookup : LedgerClient A D R S → Lookup → Run S ScLogicError LookupResponse

module _ {Endpoint Lookup LookupResponse A D R S : Type 0} ⦃lib : AddressLib A⦄
    (logic : ScLogic Endpoint Lookup LookupResponse A D R S) (client : LedgerClient A D R S) where
  -- The actions of an endpoint, with the error in the place that `?` gives it.
  unfoldable pub actions_of : Endpoint → Run S Error (TxActions A D R)
  actions_of endpoint s =
      let (r, s') = logic.handle_endpoint client endpoint s in (map_err Error.sc_logic r, s')

  unfoldable pub hit_endpoint : Endpoint → Run S Error String
  unfolding actions_of to_unbuilt_tx
  hit_endpoint endpoint = do
    tx_actions ← actions_of endpoint
    tx ← lift (to_unbuilt_tx tx_actions)
    call Error.ledger_client (client.issue tx)

  unfoldable pub run_lookup : Lookup → Run S Error LookupResponse
  run_lookup query s = let (r, s') = logic.lookup client query s in (map_err Error.sc_logic r, s')
