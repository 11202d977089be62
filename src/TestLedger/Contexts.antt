-- ===== src/TestLedger/Contexts.antt =====
-- The contexts that the fake ledger shows to scripts (src/ledger_client/test_ledger_client.rs).
use naumachia.Prelude.{
  Bool, true, false, Option, none, some, List, [], ◌∷◌, ◌++◌, String, Outcome, ok, ◌>>=◌, ok_or,
}
use naumachia.Prelude.Int.{ℤ, pos, mul_i64}
use naumachia.Address.{AddressLib}
use naumachia.Errors.{
  LedgerClientError, failed_to_issue_tx, test_lc, invalid_address, bad_hex, bad_bech32,
}
use naumachia.Scripts.PlutusData.{PlutusData}
use naumachia.Scripts.Context.{
  CtxScriptPurpose, mint, spend, TxContext, Input, CtxOutput, ValidRange, ctx_value, ctx_datum,
  inline_datum, pub_key_hash_from_address_if_available,
}
use naumachia.Scripts.Context
use naumachia.Output.{Output, UnbuiltOutput, wallet, validator, output_owner, typed_datum}
use naumachia.Transaction.{UnbuiltTransaction, RedemptionDetails}
use naumachia.TestLedger.TxId.{HexLib}

-- Seconds to milliseconds, with the flag of the bound.
unfoldable pub bound_of : Option ℤ → Bool → Option (ℤ × Bool)
bound_of none inclusive = none
bound_of (some n) inclusive = some (mul_i64 n (pos 1000), inclusive)

-- The types of addresses, datums and redeemers, the libraries, and `Into<PlutusData>`.
module _ {A D : Type 0} (lib : AddressLib A) (into : D → PlutusData) where
  -- A script input, with its typed datum.
  unfoldable pub script_input : Output D → Outcome LedgerClientError (Input A)
  unfolding output_owner typed_datum ctx_datum ctx_value
  script_input utxo = do
    owner ← output_owner ⦃lib = lib⦄ utxo
    ok (record {
      transaction_id = utxo.id.tx_hash;
      output_index = utxo.id.index;
      address = owner;
      value = ctx_value utxo.values;
      datum = ctx_datum into (typed_datum utxo);
      reference_script = none;
    })

  -- An input of the wallet, shown without a datum.
  unfoldable pub wallet_input : Output D → Outcome LedgerClientError (Input A)
  unfolding output_owner ctx_value
  wallet_input utxo = do
    owner ← output_owner ⦃lib = lib⦄ utxo
    ok (record {
      transaction_id = utxo.id.tx_hash;
      output_index = utxo.id.index;
      address = owner;
      value = ctx_value utxo.values;
      datum = Context.no_datum;
      reference_script = none;
    })

  unfoldable pub script_inputs_of :
      {R : Type 0} → List (RedemptionDetails A D R) → Outcome LedgerClientError (List (Input A))
  unfolding script_input
  script_inputs_of [] = ok []
  script_inputs_of ((utxo, _, _) ∷ rest) = do
    input ← script_input utxo
    inputs ← script_inputs_of rest
    ok (input ∷ inputs)

  unfoldable pub wallet_inputs_of : List (Output D) → Outcome LedgerClientError (List (Input A))
  unfolding wallet_input
  wallet_inputs_of [] = ok []
  wallet_inputs_of (utxo ∷ rest) = do
    input ← wallet_input utxo
    inputs ← wallet_inputs_of rest
    ok (input ∷ inputs)

  unfoldable pub ctx_output : UnbuiltOutput D → Outcome LedgerClientError (CtxOutput A)
  unfolding ctx_value
  ctx_output (wallet owner values) = do
    address ← ok_or (lib.from_bech32 owner) (failed_to_issue_tx bad_bech32)
    ok (record {
      address = address;
      value = ctx_value values;
      datum = Context.no_datum;
      reference_script = none;
    })
  ctx_output (validator script_address values datum) = do
    address ← ok_or (lib.from_bech32 script_address) (failed_to_issue_tx bad_bech32)
    ok (record {
      address = address;
      value = ctx_value values;
      datum = inline_datum (into datum);
      reference_script = none;
    })

  unfoldable pub ctx_outputs_of :
      List (UnbuiltOutput D) → Outcome LedgerClientError (List (CtxOutput A))
  unfolding ctx_output
  ctx_outputs_of [] = ok []
  ctx_outputs_of (output ∷ rest) = do o ← ctx_output output; os ← ctx_outputs_of rest; ok (o ∷ os)

  unfoldable pub tx_context :
      {R : Type 0}
      → UnbuiltTransaction A D R
      → A
      → CtxScriptPurpose
      → Outcome LedgerClientError (TxContext A)
  unfolding script_inputs_of wallet_inputs_of ctx_outputs_of bound_of
      pub_key_hash_from_address_if_available
  tx_context tx signer_address purpose = do
    let lower = bound_of tx.valid_range.0 true
    let upper = bound_of tx.valid_range.1 false
    inputs ← script_inputs_of tx.script_inputs
    wallet_inputs ← wallet_inputs_of tx.specific_wallet_inputs
    outputs ← ctx_outputs_of tx.unbuilt_outputs
    signer ←
        ok_or (pub_key_hash_from_address_if_available ⦃lib = lib⦄ signer_address)
          (failed_to_issue_tx (test_lc invalid_address))
    ok (record {
      purpose = purpose;
      signer = signer;
      range = record { lower = lower; upper = upper };
      inputs = inputs ++ wallet_inputs;
      outputs = outputs;
      extra_signatories = [];
      datums = [];
    })

  unfoldable pub spend_tx_context :
      {R : Type 0}
      → UnbuiltTransaction A D R
      → A
      → Output D
      → Outcome LedgerClientError (TxContext A)
  unfolding tx_context
  spend_tx_context tx signer_address output =
      tx_context tx signer_address
        (spend (record { transaction_id = output.id.tx_hash; output_index = output.id.index }))

  unfoldable pub mint_tx_context :
      {R : Type 0}
      → HexLib
      → UnbuiltTransaction A D R
      → A
      → String
      → Outcome LedgerClientError (TxContext A)
  unfolding tx_context
  mint_tx_context hex tx signer_address policy_id = do
    id ← ok_or (hex.decode policy_id) (failed_to_issue_tx bad_hex)
    tx_context tx signer_address (mint id)
