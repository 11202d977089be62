-- ===== src/TestLedger/Inputs.antt =====
-- What `issue` spends and mints: the scripts are run, one after the other
-- (src/ledger_client/test_ledger_client.rs).
use naumachia.Prelude.{
  Bool, true, false, ◌||◌, List, [], ◌∷◌, ◌++◌, Outcome, ok, err, ◌>>=◌, map_err, Eq,
}
use naumachia.Address.{AddressLib}
use naumachia.Errors.{
  LedgerClientError, failed_to_issue_tx, test_lc, Cause, duplicate_input, wrong_datum, ScriptError,
}
use naumachia.PolicyId.{native_token}
use naumachia.Values.{Values, add_one_value}
use naumachia.Scripts.PlutusData.{PlutusData}
use naumachia.Output.{Output, typed}
use naumachia.Output.Equality.{output_beq}
use naumachia.Transaction.{UnbuiltTransaction, RedemptionDetails, Minting}
use naumachia.TestLedger.TxId.{HexLib}
use naumachia.TestLedger.Contexts.{spend_tx_context, mint_tx_context}

-- An error of a script, boxed as the cause that the transaction was not issued.
abbrev pub script_failed : ScriptError → LedgerClientError
script_failed e = failed_to_issue_tx (Cause.script e)

-- `Vec::contains`
unfoldable pub contains : {D : Type 0} ⦃d : Eq D⦄ → List (Output D) → Output D → Bool
unfolding output_beq
contains [] o = false
contains (x ∷ xs) o = output_beq x o || contains xs o

module _ {A D R : Type 0} ⦃d : Eq D⦄ (lib : AddressLib A) (hex : HexLib)
    (into : D → PlutusData) where
  module _ (tx : UnbuiltTransaction A D R) (signer : A) where
    -- One turn of the loop over the script inputs, on the outputs spent so far.
    unfoldable pub spend_one :
        List (Output D) → RedemptionDetails A D R → Outcome LedgerClientError (List (Output D))
    unfolding contains spend_tx_context
    spend_one spending_outputs (input, redeemer, script) = elim input.datum [
      | typed datum ↦ elim (contains spending_outputs input) [
        | false ↦ do
          ctx ← spend_tx_context lib into tx signer input
          _ ← map_err script_failed (script.execute datum redeemer ctx)
          ok (spending_outputs ++ input ∷ [])
        | true ↦ err (failed_to_issue_tx (test_lc duplicate_input))
      ]
      | _ ↦ err (failed_to_issue_tx (test_lc wrong_datum))
    ]

    unfoldable pub spend_all :
        List (Output D)
        → List (RedemptionDetails A D R)
        → Outcome LedgerClientError (List (Output D))
    unfolding spend_one
    spend_all spending_outputs [] = ok spending_outputs
    spend_all spending_outputs (details ∷ rest) =
        spend_one spending_outputs details >>= λ spent. spend_all spent rest

    -- One turn of the loop over the minting, on the value minted so far.
    unfoldable pub mint_one : Values → Minting A R → Outcome LedgerClientError Values
    unfolding mint_tx_context
    mint_one minted_value (amount, asset_name, redeemer, policy) = do
      id ← map_err script_failed policy.id
      ctx ← mint_tx_context lib into hex tx signer id
      _ ← map_err script_failed (policy.execute redeemer ctx)
      ok (add_one_value minted_value (native_token id asset_name) amount)

    unfoldable pub mint_all : Values → List (Minting A R) → Outcome LedgerClientError Values
    unfolding mint_one
    mint_all minted_value [] = ok minted_value
    mint_all minted_value (m ∷ rest) = mint_one minted_value m >>= λ v. mint_all v rest
