-- ===== src/Scripts/Compiled/Applied.antt =====
-- Parameters, and then arguments, that reach a compiled script (src/scripts/plutus_minting_policy.rs,
-- src/scripts/plutus_validator.rs).
use naumachia.Prelude.{◌≡◌, refl, Option, some, List, ℕ, String, ok, ◌>>=◌}
use naumachia.Address.{PaymentPart, DelegationPart}
use naumachia.Errors.{ScriptError}
use naumachia.Scripts.Context.{TxContext}
use naumachia.Scripts.PlutusData.{PlutusData}
use naumachia.Scripts.PlutusData.Convert.{tx_context_data}
use naumachia.Scripts.Compiled.{PlutusScriptError, MachineLib, data_term, applied_cbor, evaluated}
use naumachia.Scripts.Compiled.Aiken.{AikenData}
use naumachia.Scripts.Compiled.Policy.{PlutusMintingPolicy, execute_policy}
use naumachia.Scripts.Compiled.TwoParamPolicy.{TwoParamMintingPolicy}
use naumachia.Scripts.Compiled.OneParamPolicy.{apply as apply_last}
use naumachia.Scripts.Compiled.TwoParamPolicy.{apply as apply_first}
use naumachia.Scripts.Compiled.Validator.{PlutusValidator, execute_validator}
use naumachia.Scripts.Compiled.OneParamValidator.{OneParamRawValidator, apply}

-- A program has bytes, which are read back as that program.
unfoldable pub ProgramsRoundTrip : {Program : Type 0} → MachineLib Program → Type 0
ProgramsRoundTrip lib =
    (program : _)
    → (cbor : List ℕ) × (lib.to_cbor program ≡ some cbor) × (lib.from_cbor cbor ≡ some program)

module _ {Program : Type 0} (lib : MachineLib Program) (round_trip : ProgramsRoundTrip lib) where
  -- The bytes after an application are those of the applied program.
  applied_cbor-program :
      (cbor : List ℕ) (program : Program) (one : PlutusData) (term : AikenData)
      → lib.from_cbor cbor ≡ some program
      → data_term lib {E = PlutusScriptError} one ≡ ok term
      → (new_cbor : List ℕ) × (applied_cbor lib cbor one ≡ ok new_cbor)
        × (lib.from_cbor new_cbor ≡ some (lib.apply_term program term))
  unfolding applied_cbor ProgramsRoundTrip
  applied_cbor-program cbor program one term found made =
      let (new_cbor, encoded, decoded) = round_trip (lib.apply_term program term) in
      (new_cbor, rw (found, made, encoded) refl, decoded)

  -- A two-parameter policy that gets its parameters and is then run evaluates its program, at its
  -- version, applied to the first parameter, the second, the redeemer and the context in this order,
  -- where its bytes are a program, the four values have terms, and programs have bytes that are read
  -- back as them.
  pub apply-execute_policy :
      {Address One Two R : Type 0} (parts : Address → Option (PaymentPart × DelegationPart))
      (one_into : One → PlutusData) (two_into : Two → PlutusData) (into : R → PlutusData)
      (policy : TwoParamMintingPolicy) (one : One) (two : Two) (redeemer : R)
      (ctx : TxContext Address) (program : Program) (ctx_data : PlutusData) (a b c d : AikenData)
      → lib.from_cbor policy.cbor ≡ some program
      → data_term lib {E = PlutusScriptError} (one_into one) ≡ ok a
      → data_term lib {E = PlutusScriptError} (two_into two) ≡ ok b
      → data_term lib {E = ScriptError} (into redeemer) ≡ ok c
      → tx_context_data {E = ScriptError} parts lib.hex.decode ctx ≡ ok ctx_data
      → data_term lib {E = ScriptError} ctx_data ≡ ok d
      → (complete : PlutusMintingPolicy) × ((apply_first lib one_into policy one >>= λ builder.
            apply_last lib two_into builder two)
          ≡ ok complete)
        × (execute_policy lib parts into complete redeemer ctx
            ≡ evaluated lib policy.version
                (lib.apply_term (lib.apply_term (lib.apply_term (lib.apply_term program a) b) c) d))
  unfolding apply_first apply_last execute_policy
  apply-execute_policy parts one_into two_into into policy one two redeemer ctx program ctx_data a b
        c d found p q r s t =
      let (cbor_one, made_one, found_one) =
        applied_cbor-program policy.cbor program (one_into one) a found p in
      let (cbor_two, made_two, found_two) =
        applied_cbor-program cbor_one (lib.apply_term program a) (two_into two) b found_one q in
      (
        record { version = policy.version; cbor = cbor_two },
        rw (made_one, made_two) refl,
        rw (found_two, r, s, t) refl,
      )

  -- A validator that gets its parameter and is then run evaluates its program, at its version,
  -- applied to the parameter, the datum, the redeemer and the context in this order, where its bytes
  -- are a program, the four values have terms, and programs have bytes that are read back as them.
  pub apply-execute_validator :
      {Address One D R : Type 0} (parts : Address → Option (PaymentPart × DelegationPart))
      (from_bech32 : String → Option Address) (one_into : One → PlutusData)
      (datum_into : D → PlutusData) (into : R → PlutusData) (builder : OneParamRawValidator)
      (one : One) (datum : D) (redeemer : R) (ctx : TxContext Address) (program : Program)
      (ctx_data : PlutusData) (a b c d : AikenData)
      → lib.from_cbor builder.cbor ≡ some program
      → data_term lib {E = PlutusScriptError} (one_into one) ≡ ok a
      → data_term lib {E = ScriptError} (datum_into datum) ≡ ok b
      → data_term lib {E = ScriptError} (into redeemer) ≡ ok c
      → tx_context_data {E = ScriptError} parts lib.hex.decode ctx ≡ ok ctx_data
      → data_term lib {E = ScriptError} ctx_data ≡ ok d
      → (complete : PlutusValidator) × (apply lib one_into builder one ≡ ok complete)
        × (execute_validator lib parts from_bech32 datum_into into complete datum redeemer ctx
            ≡ evaluated lib builder.version
                (lib.apply_term (lib.apply_term (lib.apply_term (lib.apply_term program a) b) c) d))
  unfolding apply execute_validator
  apply-execute_validator parts from_bech32 one_into datum_into into builder one datum redeemer ctx
        program ctx_data a b c d found p q r s t =
      let (cbor_one, made_one, found_one) =
        applied_cbor-program builder.cbor program (one_into one) a found p in
      (
        record { version = builder.version; cbor = cbor_one },
        rw (made_one) refl,
        rw (found_one, q, r, s, t) refl,
      )
