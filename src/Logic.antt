-- ===== src/Logic.antt =====
-- What the logic of smart contracts shares (src/logic/error.rs, nau-scripts/src/one_shot.rs, and the
-- search for an output by its id, which each dApp of sample-dApps writes out).
use naumachia.Prelude.{ℕ, Option, none, some, List, [], ◌∷◌, if◌then◌else◌, Outcome, ok_or, map_err}
use naumachia.Errors.{
  Error, LedgerClientError, ScriptError, ScLogicError, endpoint, lookup, validator_script,
  DappError, OutputId, boxed_ledger_client, boxed_script, boxed_error, boxed_dapp, output_not_found,
}
use naumachia.Scripts.PlutusData.{PlutusData, constr, nil, cons, bounded_bytes, big_int}
use naumachia.Scripts.PlutusData.Numbers.{big_int_of, as_i64}
use naumachia.Scripts.{Validator}
use naumachia.Effects.{Run, ◌>>=◌, call, lift, return}
use naumachia.LedgerClient.{LedgerClient}
use naumachia.Output.{Output}
use naumachia.Output.Equality.{id_beq}

-- `as_endpoint_err` and `as_lookup_err`, of the errors that the dApps box.
abbrev pub endpoint_lc : LedgerClientError → ScLogicError
endpoint_lc error = endpoint (boxed_ledger_client error)

abbrev pub endpoint_script : ScriptError → ScLogicError
endpoint_script error = endpoint (boxed_script error)

abbrev pub endpoint_error : Error → ScLogicError
endpoint_error error = endpoint (boxed_error error)

abbrev pub endpoint_dapp : DappError → ScLogicError
endpoint_dapp error = endpoint (boxed_dapp error)

abbrev pub lookup_lc : LedgerClientError → ScLogicError
lookup_lc error = lookup (boxed_ledger_client error)

-- `into_iter().find(|o| o.id() == &output_id)`
unfoldable pub find_output : {D : Type 0} → OutputId → List (Output D) → Option (Output D)
find_output output_id [] = none
find_output output_id (o ∷ outputs) =
    if id_beq o.id output_id then some o else find_output output_id outputs

-- The search, with the dApps' error.
abbrev pub found_output :
    {D : Type 0} → OutputId → List (Output D) → Outcome ScLogicError (Output D)
found_output output_id outputs =
    ok_or (find_output output_id outputs) (endpoint_dapp (output_not_found output_id))

-- The parameter of a one-shot policy.
pub record OutputReference : Type 0 where
  pub transaction_id : List ℕ
  pub output_index : ℕ

unfoldable pub output_reference : {D : Type 0} → Output D → OutputReference
output_reference output = record {
  transaction_id = output.id.tx_hash;
  output_index = output.id.index;
}

unfoldable pub output_reference_data : OutputReference → PlutusData
unfolding big_int_of as_i64
output_reference_data out_ref =
    let transaction_id = constr 0 (cons (bounded_bytes out_ref.transaction_id) nil) in
    let output_index = big_int (big_int_of (as_i64 out_ref.output_index)) in
    constr 0 (cons transaction_id (cons output_index nil))

-- The first steps of two dApps: the network, the script, and its address.
abbrev pub script_at :
    {A D R S : Type 0}
    → LedgerClient A D R S
    → Outcome ScriptError (Validator A D R)
    → Run S ScLogicError (Validator A D R × A)
script_at client script = do
  network ← call endpoint_lc client.network
  validator ← lift (map_err validator_script script)
  address ← lift (map_err validator_script (validator.address network))
  return (validator, address)
