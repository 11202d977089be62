-- ===== src/Scripts/Compiled/Policy.antt =====
-- Compiled minting policies (src/scripts/plutus_minting_policy.rs). The type parameters that only mark
-- what a script takes are left out; `into` is how a value becomes Plutus data, and `parts` the
-- Shelley address that the crate `pallas_addresses` finds.
use naumachia.Prelude.{ℕ, Option, List, String, Outcome, ok, ◌>>=◌, ok_or}
use naumachia.Address.{PaymentPart, DelegationPart}
use naumachia.Errors.{ScriptError, failed_to_execute}
use naumachia.Transaction.{TransactionVersion, v1, v2}
use naumachia.Scripts.{ExecutionCost, MintingPolicy}
use naumachia.Scripts.Context.{TxContext}
use naumachia.Scripts.PlutusData.{PlutusData}
use naumachia.Scripts.PlutusData.Convert.{tx_context_data}
use naumachia.Scripts.Compiled.{
  PlutusScriptFile, ValidatorBlueprint, PlutusScriptError, MachineLib, file_cbor, code_cbor,
  data_term, evaluated, script_hex_of, hash_of,
}

pub record PlutusMintingPolicy : Type 0 where
  pub version : TransactionVersion
  pub cbor : List ℕ

module _ {Program : Type 0} (lib : MachineLib Program) where
  unfoldable pub new_v1 : PlutusScriptFile → Outcome PlutusScriptError PlutusMintingPolicy
  unfolding file_cbor
  new_v1 script_file =
      file_cbor lib script_file >>= λ outer. ok (record { version = v1; cbor = outer })

  unfoldable pub new_v2 : PlutusScriptFile → Outcome PlutusScriptError PlutusMintingPolicy
  unfolding file_cbor
  new_v2 script_file =
      file_cbor lib script_file >>= λ outer. ok (record { version = v2; cbor = outer })

  unfoldable pub v2_from_cbor : String → Outcome PlutusScriptError PlutusMintingPolicy
  unfolding code_cbor
  v2_from_cbor code = code_cbor lib code >>= λ cbor. ok (record { version = v2; cbor = cbor })

  unfoldable pub from_blueprint : ValidatorBlueprint → Outcome PlutusScriptError PlutusMintingPolicy
  unfolding code_cbor
  from_blueprint blueprint =
      code_cbor lib blueprint.compiled_code >>= λ cbor. ok (record { version = v2; cbor = cbor })

module _ {Program Address R : Type 0} (lib : MachineLib Program)
    (parts : Address → Option (PaymentPart × DelegationPart)) (into : R → PlutusData) where
  -- `MintingPolicy::execute`: the redeemer first, then the context.
  unfoldable pub execute_policy :
      PlutusMintingPolicy → R → TxContext Address → Outcome ScriptError ExecutionCost
  unfolding data_term evaluated
  execute_policy policy redeemer ctx =
      ok_or (lib.from_cbor policy.cbor) failed_to_execute >>= λ program.
      data_term lib (into redeemer) >>= λ redeemer_term.
      tx_context_data parts lib.hex.decode ctx >>= λ ctx_data.
      data_term lib ctx_data >>= λ ctx_term.
      evaluated lib policy.version (lib.apply_term (lib.apply_term program redeemer_term) ctx_term)

  -- A compiled policy as the framework takes it.
  unfoldable pub compiled_policy : PlutusMintingPolicy → MintingPolicy Address R
  unfolding execute_policy hash_of script_hex_of
  compiled_policy policy = record {
    execute = execute_policy policy;
    id = hash_of lib policy.version policy.cbor;
    script_hex = script_hex_of lib policy.cbor;
  }
