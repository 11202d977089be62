-- ===== src/Tests/Compiled.antt =====
-- The properties of compiled scripts, each applied to a machine whose programs are their bytes.
use naumachia.Prelude.{
  ℕ, ◌≡◌, ◌==◌, nat_eq, refl, arith, true, false, Bool, Option, none, some, List, [], ◌∷◌, ◌++◌,
  String, Outcome, ok, ◌>>=◌, if◌then◌else◌,
}
use naumachia.Prelude.Int.{pos, negsuc}
use naumachia.Address.{PaymentPart, DelegationPart}
use naumachia.Errors.{ScriptError}
use naumachia.Transaction.{TransactionVersion, v2}
use naumachia.Scripts.{ExecutionCost, no_cost}
use naumachia.Scripts.Context.{TxContext, CtxScriptPurpose}
use naumachia.Scripts.PlutusData.{PlutusData, BigInt, Items}
use naumachia.Scripts.PlutusData.Convert.{tx_context_data}
use naumachia.Scripts.Compiled.{MachineLib, data_term, evaluated}
use naumachia.Scripts.Compiled.Aiken.{
  AikenData, AikenItems, AikenBigInt, aiken_data, TakesU64, HasU64,
}
use naumachia.Scripts.Compiled.Totals.{aiken_data-HasU64}
use naumachia.Scripts.Compiled.Policy.{PlutusMintingPolicy, execute_policy}
use naumachia.Scripts.Compiled.OneParamPolicy.{apply as apply_last}
use naumachia.Scripts.Compiled.TwoParamPolicy.{TwoParamMintingPolicy, apply as apply_first}
use naumachia.Scripts.Compiled.Validator.{PlutusValidator, execute_validator}
use naumachia.Scripts.Compiled.Applied.{ProgramsRoundTrip, apply-execute_policy}
use naumachia.Scripts.Compiled.Accepted.{execute_validator-ok}

abbrev term_bytes : AikenData → List ℕ
term_bytes (AikenData.big_int (AikenBigInt.int (pos n))) = n ∷ []
term_bytes _ = 0 ∷ []

-- A tag of the first constructor.
abbrev tag : ℕ → Option ℕ
tag n = if n == 0 then some 121 else none

-- A program is accepted where the first byte is 7, with a cost.
abbrev accepts : TransactionVersion → List ℕ → Bool × ExecutionCost
accepts version [] = (false, no_cost)
accepts version (b ∷ bytes) = (b == 7, record { mem = pos b; cpu = pos 2 })

abbrev machine : MachineLib (List ℕ)
machine = record {
  hex = record { encode = λ bytes. "07"; decode = λ text. some (7 ∷ []) };
  cbor_bytes = some;
  cbor_wrap = some;
  from_cbor = some;
  to_cbor = some;
  apply_term = λ program term. program ++ term_bytes term;
  eval = accepts;
  convert_constr_to_tag = tag;
  int_of_i128 = some;
  script_hash = λ version bytes. some "hash";
  script_address = λ network hash. some "addr1";
}

machine-ProgramsRoundTrip : ProgramsRoundTrip machine
unfolding ProgramsRoundTrip
machine-ProgramsRoundTrip = λ program. (program, refl, refl)

abbrev num : ℕ → PlutusData
num n = PlutusData.big_int (BigInt.int false n)

some-TakesU64 : TakesU64 some
unfolding TakesU64
some-TakesU64 = λ z h k. refl

abbrev sample : PlutusData
sample =
    PlutusData.constr 3
      (Items.cons (PlutusData.big_int (BigInt.int true 18446744073709551615)) Items.nil)

sample-HasU64 : HasU64 sample
unfolding HasU64
sample-HasU64 = (omega arith, tt)

aiken_data-HasU64_example : (a : AikenData) × (aiken_data {E = ScriptError} tag some sample ≡ ok a)
aiken_data-HasU64_example = aiken_data-HasU64 tag some some-TakesU64 sample sample-HasU64

sample_converted :
    aiken_data {E = ScriptError} tag some sample
    ≡ ok (
        AikenData.constr 102 (some 3) (
          AikenItems.cons
            (AikenData.big_int (AikenBigInt.int (negsuc 18446744073709551614)))
            AikenItems.nil))
unfolding aiken_data
sample_converted = refl

abbrev mint_ctx : TxContext String
mint_ctx = record {
  purpose = CtxScriptPurpose.mint (1 ∷ []);
  signer = record { bytes = 5 ∷ [] };
  range = record { lower = none; upper = none };
  inputs = [];
  outputs = [];
  extra_signatories = [];
  datums = [];
}

abbrev no_parts : String → Option (PaymentPart × DelegationPart)
no_parts _ = none

abbrev or_default : {A : Type 0} → Outcome ScriptError A → A → A
or_default (ok a) b = a
or_default _ b = b

abbrev ctx_data : PlutusData
unfolding tx_context_data
ctx_data = or_default (tx_context_data no_parts machine.hex.decode mint_ctx) (num 0)

abbrev ctx_term : AikenData
unfolding data_term aiken_data tx_context_data
ctx_term = or_default (data_term machine ctx_data) (AikenData.array AikenItems.nil)

ctx_data_made : tx_context_data {E = ScriptError} no_parts machine.hex.decode mint_ctx ≡ ok ctx_data
unfolding tx_context_data
ctx_data_made = refl

ctx_term_made : data_term machine {E = ScriptError} ctx_data ≡ ok ctx_term
unfolding data_term tx_context_data aiken_data
ctx_term_made = refl

abbrev num_term : ℕ → AikenData
num_term n = AikenData.big_int (AikenBigInt.int (pos n))

num_made : {E : Type 0} (n : ℕ) → data_term machine {E = E} (num n) ≡ ok (num_term n)
unfolding data_term aiken_data
num_made n = refl

abbrev two_param : TwoParamMintingPolicy
two_param = record { version = v2; cbor = 7 ∷ [] }

abbrev run_program : List ℕ
run_program = 7 ∷ 11 ∷ 12 ∷ 13 ∷ 0 ∷ []

apply-execute_policy_example :
    (complete : PlutusMintingPolicy) × ((apply_first machine num two_param 11 >>= λ builder.
    apply_last machine num builder 12)
      ≡ ok complete)
    × (execute_policy machine no_parts num complete 13 mint_ctx ≡ evaluated machine v2 run_program)
unfolding ctx_term
apply-execute_policy_example =
    apply-execute_policy machine machine-ProgramsRoundTrip no_parts num num num two_param 11 12 13
      mint_ctx (7 ∷ []) ctx_data (num_term 11) (num_term 12) (num_term 13) ctx_term refl
      (num_made 11) (num_made 12) (num_made 13) ctx_data_made ctx_term_made

abbrev seven : PlutusValidator
seven = record { version = v2; cbor = 7 ∷ [] }

abbrev seven_cost : ExecutionCost
seven_cost = record { mem = pos 7; cpu = pos 2 }

seven_accepts : execute_validator machine no_parts some num num seven 12 13 mint_ctx ≡ ok seven_cost
unfolding execute_validator data_term tx_context_data aiken_data evaluated
seven_accepts = refl

execute_validator-ok_example :
    (program : List ℕ) × (found : PlutusData) × (a : AikenData) × (b : AikenData) × (c : AikenData)
    × (some (7 ∷ []) ≡ some program)
    × (data_term machine {E = ScriptError} (num 12) ≡ ok a)
    × (data_term machine {E = ScriptError} (num 13) ≡ ok b)
    × (tx_context_data {E = ScriptError} no_parts machine.hex.decode mint_ctx ≡ ok found)
    × (data_term machine {E = ScriptError} found ≡ ok c)
    × (accepts v2 (((program ++ term_bytes a) ++ term_bytes b) ++ term_bytes c)
        ≡ (true, seven_cost))
execute_validator-ok_example =
    execute_validator-ok machine no_parts some num num seven 12 13 mint_ctx seven_cost seven_accepts
