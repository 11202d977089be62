-- ===== src/Scripts/Compiled.antt =====
-- Compiled scripts (src/scripts/raw_script.rs, src/scripts/plutus_minting_policy.rs,
-- src/scripts/plutus_validator.rs), and what the code uses of the crates `uplc`, `minicbor` and
-- `cardano_multiplatform_lib`, as an interface. `none` stands for an `Err`.
pub mod Aiken
pub mod Totals
pub mod Policy
pub mod OneParamPolicy
pub mod TwoParamPolicy
pub mod Validator
pub mod OneParamValidator
pub mod Applied
pub mod Accepted
use naumachia.Prelude.{
  ℕ, Bool, Option, none, some, List, [], ◌∷◌, String, string_eq, ◌==◌, if◌then◌else◌, Outcome, ok,
  err, panic, ◌>>=◌, ok_or, unwrap, expect,
}
use naumachia.Prelude.Int.{ℤ}
use naumachia.Errors.{ScriptError, failed_to_execute, id_retrieval, script_hex_retrieval}
use naumachia.Transaction.{TransactionVersion}
use naumachia.Scripts.{ExecutionCost}
use naumachia.Scripts.PlutusData.{PlutusData}
use naumachia.TestLedger.TxId.{HexLib}
use Aiken.{AikenData, aiken_data}

pub record PlutusScriptFile : Type 0 where
  pub script_type : String
  pub description : String
  pub cbor_hex : String

-- What the code reads of a blueprint's validator.
pub record ValidatorBlueprint : Type 0 where
  pub title : String
  pub compiled_code : String

-- `BlueprintFile::get_validator`, of the file's validators.
unfoldable pub get_validator : List ValidatorBlueprint → String → Option ValidatorBlueprint
get_validator [] title = none
get_validator (v ∷ validators) title =
    if v.title == title then some v else get_validator validators title

pub data PlutusScriptError : Type 0 where
  aiken_apply aiken_eval cml_error : PlutusScriptError

pub record MachineLib (Program : Type 0) : Type 0 where
  pub hex : HexLib
  -- `minicbor`: the bytes in a byte string, and their wrapping in one.
  pub cbor_bytes : List ℕ → Option (List ℕ)
  pub cbor_wrap : List ℕ → Option (List ℕ)
  -- `uplc`: programs, their application to a constant, and their evaluation.
  pub from_cbor : List ℕ → Option Program
  pub to_cbor : Program → Option (List ℕ)
  pub apply_term : Program → AikenData → Program
  pub eval : TransactionVersion → Program → Bool × ExecutionCost
  -- The constructor tags, and the conversion from i128.
  pub convert_constr_to_tag : ℕ → Option ℕ
  pub int_of_i128 : ℤ → Option ℤ
  -- The hash of a script, by its version, in hex.
  pub script_hash : TransactionVersion → List ℕ → Option String
  -- The text of the enterprise address of a network with a script's hash.
  pub script_address : ℕ → String → Option String

module _ {Program : Type 0} (lib : MachineLib Program) where
  -- The program in a script file, whose bytes stand in a byte string.
  unfoldable pub file_cbor : PlutusScriptFile → Outcome PlutusScriptError (List ℕ)
  file_cbor script_file = ok_or (lib.hex.decode script_file.cbor_hex) aiken_apply >>= λ cbor.
      ok_or (lib.cbor_bytes cbor) aiken_apply

  -- The program in a blueprint, or in a text of hex digits.
  unfoldable pub code_cbor : String → Outcome PlutusScriptError (List ℕ)
  code_cbor code = ok_or (lib.hex.decode code) aiken_apply

  -- The constant that a program is applied to.
  unfoldable pub data_term : {E : Type 0} → PlutusData → Outcome E AikenData
  data_term = aiken_data lib.convert_constr_to_tag lib.int_of_i128

  -- `apply` of the builders: `unwrap` panics where the bytes are no program.
  unfoldable pub applied_cbor : List ℕ → PlutusData → Outcome PlutusScriptError (List ℕ)
  unfolding data_term
  applied_cbor cbor one = expect (lib.from_cbor cbor) >>= λ program. data_term one >>= λ one_term.
      ok_or (lib.to_cbor (lib.apply_term program one_term)) aiken_apply

  -- The evaluation of a program that has its arguments, at the version of its script.
  unfoldable pub evaluated : TransactionVersion → Program → Outcome ScriptError ExecutionCost
  evaluated version program =
      let (returned, cost) = lib.eval version program in
      if returned then ok cost else err failed_to_execute

  -- `script_hex`
  unfoldable pub script_hex_of : List ℕ → Outcome ScriptError String
  script_hex_of cbor =
      ok_or (lib.cbor_wrap cbor) script_hex_retrieval >>= λ wrap. ok (lib.hex.encode wrap)

  -- The hash of a script: `unwrap` panics where it has no hex form.
  unfoldable pub hash_of : TransactionVersion → List ℕ → Outcome ScriptError String
  unfolding script_hex_of
  hash_of version script = unwrap (script_hex_of script) >>= λ cbor.
      ok_or (lib.hex.decode cbor) id_retrieval >>= λ script_bytes.
      ok_or (lib.script_hash version script_bytes) id_retrieval
