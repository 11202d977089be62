-- ===== src/Scripts/Compiled/TwoParamPolicy.antt =====
-- Compiled minting policies that take two parameters (src/scripts/plutus_minting_policy.rs). `into` is how the
-- first parameter becomes Plutus data.
use naumachia.Prelude.{ℕ, List, Outcome, ok, ◌>>=◌}
use naumachia.Transaction.{TransactionVersion, v2}
use naumachia.Scripts.PlutusData.{PlutusData}
use naumachia.Scripts.Compiled.{
  PlutusScriptFile, ValidatorBlueprint, PlutusScriptError, MachineLib, file_cbor, code_cbor,
  applied_cbor,
}
use naumachia.Scripts.Compiled.OneParamPolicy.{OneParamPlutusPolicy}

pub record TwoParamMintingPolicy : Type 0 where
  pub version : TransactionVersion
  pub cbor : List ℕ

module _ {Program : Type 0} (lib : MachineLib Program) where
  unfoldable pub new_v2 : PlutusScriptFile → Outcome PlutusScriptError TwoParamMintingPolicy
  unfolding file_cbor
  new_v2 script_file =
      file_cbor lib script_file >>= λ outer. ok (record { version = v2; cbor = outer })

  unfoldable pub from_blueprint :
      ValidatorBlueprint → Outcome PlutusScriptError TwoParamMintingPolicy
  unfolding code_cbor
  from_blueprint blueprint =
      code_cbor lib blueprint.compiled_code >>= λ cbor. ok (record { version = v2; cbor = cbor })

  unfoldable pub apply :
      {One : Type 0}
      → (One → PlutusData)
      → TwoParamMintingPolicy
      → One
      → Outcome PlutusScriptError OneParamPlutusPolicy
  unfolding applied_cbor
  apply into policy one = applied_cbor lib policy.cbor (into one) >>= λ new_cbor.
      ok (record { version = policy.version; cbor = new_cbor })
