-- ===== src/Scripts/Compiled/Validator.antt =====
-- Compiled validators (src/scripts/plutus_validator.rs). The type parameters that only mark
-- what a script takes are left out; `into` is how a value becomes Plutus data, and `parts` the
-- Shelley address that the crate `pallas_addresses` finds.
use naumachia.Prelude.{ℕ, Option, List, String, Outcome, ok, ◌>>=◌, ok_or}
use naumachia.Address.{PaymentPart, DelegationPart, Network, testnet, mainnet, other}
use naumachia.Errors.{ScriptError, failed_to_execute, script_hex_retrieval}
use naumachia.Transaction.{TransactionVersion, v1, v2}
use naumachia.Scripts.{ExecutionCost, Validator}
use naumachia.Scripts.Context.{TxContext}
use naumachia.Scripts.PlutusData.{PlutusData}
use naumachia.Scripts.PlutusData.Convert.{tx_context_data}
use naumachia.Scripts.Compiled.{
  PlutusScriptFile, ValidatorBlueprint, PlutusScriptError, MachineLib, file_cbor, code_cbor,
  data_term, evaluated, script_hex_of, hash_of,
}

pub record PlutusValidator : Type 0 where
  pub version : TransactionVersion
  pub cbor : List ℕ

module _ {Program : Type 0} (lib : MachineLib Program) where
  unfoldable pub new_v1 : PlutusScriptFile → Outcome PlutusScriptError PlutusValidator
  unfolding file_cbor
  new_v1 script_file =
      file_cbor lib script_file >>= λ outer. ok (record { version = v1; cbor = outer })

  unfoldable pub new_v2 : PlutusScriptFile → Outcome PlutusScriptError PlutusValidator
  unfolding file_cbor
  new_v2 script_file =
      file_cbor lib script_file >>= λ outer. ok (record { version = v2; cbor = outer })

  unfoldable pub v2_from_cbor : String → Outcome PlutusScriptError PlutusValidator
  unfolding code_cbor
  v2_from_cbor code = code_cbor lib code >>= λ cbor. ok (record { version = v2; cbor = cbor })

  unfoldable pub from_blueprint : ValidatorBlueprint → Outcome PlutusScriptError PlutusValidator
  unfolding code_cbor
  from_blueprint blueprint =
      code_cbor lib blueprint.compiled_code >>= λ cbor. ok (record { version = v2; cbor = cbor })

unfoldable pub network_index : Network → ℕ
network_index testnet = 0
network_index mainnet = 1
network_index (other inner) = inner

module _ {Program Address D R : Type 0} (lib : MachineLib Program)
    (parts : Address → Option (PaymentPart × DelegationPart))
    (from_bech32 : String → Option Address) (datum_into : D → PlutusData)
    (into : R → PlutusData) where
  -- `Validator::execute`: the datum, the redeemer, then the context.
  unfoldable pub execute_validator :
      PlutusValidator → D → R → TxContext Address → Outcome ScriptError ExecutionCost
  unfolding data_term evaluated
  execute_validator script datum redeemer ctx =
      ok_or (lib.from_cbor script.cbor) failed_to_execute >>= λ program.
      data_term lib (datum_into datum) >>= λ datum_term.
      data_term lib (into redeemer) >>= λ redeemer_term.
      tx_context_data parts lib.hex.decode ctx >>= λ ctx_data.
      data_term lib ctx_data >>= λ ctx_term.
      evaluated lib script.version
        (lib.apply_term (lib.apply_term (lib.apply_term program datum_term) redeemer_term) ctx_term)

  unfoldable pub script_address_of : PlutusValidator → Network → Outcome ScriptError Address
  unfolding hash_of network_index
  script_address_of script network = hash_of lib script.version script.cbor >>= λ script_hash.
      ok_or (lib.script_address (network_index network) script_hash) script_hex_retrieval
      >>= λ text. ok_or (from_bech32 text) script_hex_retrieval

  -- A compiled validator as the framework takes it.
  unfoldable pub compiled_validator : PlutusValidator → Validator Address D R
  unfolding execute_validator script_address_of script_hex_of
  compiled_validator script = record {
    execute = execute_validator script;
    address = script_address_of script;
    script_hex = script_hex_of lib script.cbor;
  }
