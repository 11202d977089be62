-- ===== src/Errors.antt =====
-- The error types (src/error.rs, src/ledger_client.rs, src/scripts.rs, src/logic/error.rs). A boxed
-- `dyn Error` is one of the errors that the modelled code boxes; texts for people are left out.
use naumachia.Prelude.{ℕ, List, String}
use naumachia.Prelude.Int.{ℤ}
use naumachia.PolicyId.{PolicyId}

pub data ScriptError : Type 0 where
  failed_to_execute failed_to_construct datum_deserialization redeemer_deserialization id_retrieval
        script_hex_retrieval :
      ScriptError

-- `OutputId`, which errors name (src/output.rs).
pub record OutputId : Type 0 where
  pub tx_hash : List ℕ
  pub index : ℕ

-- Errors of the test ledger client.
pub data TestLcError : Type 0 where
  mutex not_enough_inputs duplicate_input wrong_datum tx_too_early tx_too_late invalid_address :
      TestLcError

-- `LocalPersistedLCError`, of the storage in a file.
pub data LocalPersistedLcError : Type 0 where
  listed_twice : LocalPersistedLcError

-- Errors of the client of a live ledger
-- (src/trireme_ledger_client/cml_client/error.rs); what the clients of services say is left out.
pub data CmlLcError : Type 0 where
  js_error address_error scrolls_client ogmios_client ogmios_response invalid_base_addr ledger_error
        key_error insufficient_ada deserialize hex_error invalid_policy_id :
      CmlLcError

-- What the code boxes as the cause of a `LedgerClientError`.
pub data Cause : Type 0 where
  test_lc : TestLcError → Cause
  local_persisted_lc : LocalPersistedLcError → Cause
  cml : CmlLcError → Cause
  -- An error of the clock, of UTF-8, and the text `not implemented` of a client.
  clock bad_utf8 not_implemented : Cause
  script : ScriptError → Cause
  bad_hex bad_bech32 : Cause

pub data LedgerClientError : Type 0 where
  base_address bad_address bad_tx_id : Cause → LedgerClientError
  failed_to_retrieve_outputs_at : String → Cause → LedgerClientError
  failed_to_retrieve_output_with_id : OutputId → Cause → LedgerClientError
  failed_to_issue_tx : Cause → LedgerClientError
  no_big_enough_collateral_utxo no_datum_on_script_input : LedgerClientError
  config_error : LedgerClientError
  current_time : Cause → LedgerClientError
  validity_range : LedgerClientError
  failed_to_get_block_time : Cause → LedgerClientError

-- The errors of the dApps (sample-dApps): one type for the enumerations that they declare.
pub data DappError : Type 0 where
  input_not_found : DappError
  output_not_found datum_not_found_for_output : OutputId → DappError
  invalid_address : DappError
  -- The time of the next pull, and the current time.
  too_early_to_pull : ℤ → ℤ → DappError

mutual
  -- `naumachia::error::Error`, with the variants that the modelled code returns.
  pub data Error : Type 0 where
    address trireme toml : Error
    ledger_client : LedgerClientError → Error
    script_error : ScriptError → Error
    sc_logic : ScLogicError → Error
    insufficient_amount_of : PolicyId → Error

  pub data ScLogicError : Type 0 where
    endpoint lookup : Boxed → ScLogicError
    validator_script policy_script : ScriptError → ScLogicError
    -- The two variants marked `#[from]`: what `?` makes of these errors.
    from_ledger_client : LedgerClientError → ScLogicError
    from_script : ScriptError → ScLogicError

  -- What the logic of a contract boxes.
  pub data Boxed : Type 0 where
    boxed_ledger_client : LedgerClientError → Boxed
    boxed_script : ScriptError → Boxed
    boxed_error : Error → Boxed
    boxed_dapp : DappError → Boxed
