-- ===== src/Scripts/Compiled/Accepted.antt =====
-- What a compiled validator accepts (src/scripts/plutus_validator.rs).
use naumachia.Prelude.{
  ◌≡◌, true, false, Bool, Option, none, some, ok, err, >>=-eq-ok, ok-inj, ok_or, if◌then◌else◌, ap,
}
use naumachia.Address.{PaymentPart, DelegationPart}
use naumachia.Errors.{ScriptError, failed_to_execute}
use naumachia.Scripts.{ExecutionCost}
use naumachia.Scripts.Context.{TxContext}
use naumachia.Scripts.PlutusData.{PlutusData}
use naumachia.Scripts.PlutusData.Convert.{tx_context_data}
use naumachia.Scripts.Compiled.{MachineLib, data_term, evaluated}
use naumachia.Scripts.Compiled.Aiken.{AikenData}
use naumachia.Scripts.Compiled.Validator.{PlutusValidator, execute_validator}

ok_or-ok : {E A : Type 0} (o : Option A) (e : E) (a : A) → ok_or o e ≡ ok a → o ≡ some a
ok_or-ok none e a h = cc
ok_or-ok (some b) e a h = cc

-- What a run that returned says of the machine's answer.
returned-true :
    (answer : Bool × ExecutionCost) (cost : ExecutionCost)
    → (let (returned, c) = answer in if returned then ok c else err failed_to_execute) ≡ ok cost
    → answer ≡ (true, cost)
returned-true (true, c) cost h = ap (λ c. (true, c)) (ok-inj h)
returned-true (false, c) cost h = cc

module _ {Program : Type 0} (lib : MachineLib Program) where
  -- A validator accepts only where its bytes are a program, and the machine, at its version, returns
  -- from that program applied to the terms of the datum, the redeemer and the context, at that cost.
  pub execute_validator-ok :
      {Address D R : Type 0} (parts : Address → Option (PaymentPart × DelegationPart))
      (from_bech32 : _) (datum_into : D → PlutusData) (into : R → PlutusData)
      (script : PlutusValidator) (datum : D) (redeemer : R) (ctx : TxContext Address)
      (cost : ExecutionCost)
      → execute_validator lib parts from_bech32 datum_into into script datum redeemer ctx ≡ ok cost
      → (program : Program) × (ctx_data : PlutusData) × (a : AikenData) × (b : AikenData)
        × (c : AikenData) × (lib.from_cbor script.cbor ≡ some program)
        × (data_term lib {E = ScriptError} (datum_into datum) ≡ ok a)
        × (data_term lib {E = ScriptError} (into redeemer) ≡ ok b)
        × (tx_context_data {E = ScriptError} parts lib.hex.decode ctx ≡ ok ctx_data)
        × (data_term lib {E = ScriptError} ctx_data ≡ ok c)
        × (lib.eval script.version (lib.apply_term (lib.apply_term (lib.apply_term program a) b) c)
            ≡ (true, cost))
  unfolding execute_validator evaluated
  execute_validator-ok parts from_bech32 datum_into into script datum redeemer ctx cost h =
      let (program, p, h1) = >>=-eq-ok (ok_or (lib.from_cbor script.cbor) failed_to_execute) _ h in
      let (a, q, h2) = >>=-eq-ok (data_term lib (datum_into datum)) _ h1 in
      let (b, r, h3) = >>=-eq-ok (data_term lib (into redeemer)) _ h2 in
      let (ctx_data, s, h4) = >>=-eq-ok (tx_context_data parts lib.hex.decode ctx) _ h3 in
      let (c, t, h5) = >>=-eq-ok (data_term lib ctx_data) _ h4 in
      (
        program,
        ctx_data,
        a,
        b,
        c,
        ok_or-ok (lib.from_cbor script.cbor) failed_to_execute program p,
        q,
        r,
        s,
        t,
        returned-true _ cost h5,
      )
