-- ===== src/Tests.antt =====
-- The properties of the ledger, each applied to concrete data.
pub mod Bags
pub mod Storage
pub mod Actions
pub mod Persisted
pub mod Contracts
pub mod Data
pub mod Issued
pub mod Compiled
pub mod OneShot
pub mod Live
pub mod Commands
use naumachia.Prelude.{
  ℕ, String, ◌≡◌, ◌<◌, refl, arith, All, List, [], ◌∷◌, ◌⊎◌, Outcome, ok, err, none, Eq, nat_eq,
  ◌+◌, ◌%◌, ◌^◌, ◌≤◌,
}
use naumachia.PolicyId.{PolicyId, ada, native_token}
use naumachia.Values.{Values, empty, add_one_value, add_values, try_subtract, IsValid, amount}
use naumachia.Values.Add.{empty-IsValid, add_one_value-IsValid}
use naumachia.TestLedger.InMemory.{
  InMemoryStorage, in_memory, at_address, remove_output, add_output, set_current_time,
}
use naumachia.TestLedger.InMemory.Totals.{AllValid, held}
use naumachia.TestLedger.Issue.{issue, not_issued}
use naumachia.TestLedger.Built.{unbuilt_amounts}
use naumachia.TestLedger.Minted.{minted_amounts}
use naumachia.TestLedger.Checked.{IsValidTx}
use naumachia.TestLedger.Settle.{after_block}
use naumachia.TestLedger.Conservation.{issue-conserves, issue-creates_nothing}
use naumachia.TestLedger.Accepted.{Redeems, Mints, issue-accepted}
use naumachia.TestLedger.Failures.{issue-err}
use naumachia.Transaction.{UnbuiltTransaction}
use naumachia.Errors.{
  OutputId, failed_to_retrieve_output_with_id, test_lc, duplicate_input, not_enough_inputs,
}
use naumachia.HashMap.{get, insert, erase, map_beq}
use naumachia.Output.{sum_values, from_outputs}
use naumachia.Fixtures.Valid.{
  ten_ada-IsValid, five_ada-IsValid, twelve_ada-IsValid, payment-IsValid, ledger-AllValid,
}
use naumachia.Fixtures.{
  addresses, hex, datum_data, token, ten_ada, five_ada, twelve_ada, purse, locked, ledger, payment,
}

abbrev paid : InMemoryStorage String ℕ
paid = (issue (in_memory ⦃lib = addresses⦄) addresses hex datum_data payment (171 ∷ []) ledger).1

payment_issued :
    issue (in_memory ⦃lib = addresses⦄) addresses hex datum_data payment (171 ∷ []) ledger
    ≡ (ok "ab", paid)
unfolding issue try_subtract sum_values add_values add_one_value insert empty ada get from_outputs
    at_address erase remove_output map_beq add_output set_current_time
payment_issued = refl

issue-conserves_example :
    ("ab" ≡ hex.encode (171 ∷ []))
    × (paid ≡ after_block ledger paid.outputs)
    × AllValid paid.outputs
    × ((q : PolicyId)
        → 0 < unbuilt_amounts q payment.unbuilt_outputs % 2 ^ 64
        → held q paid.outputs % 2 ^ 64
          ≡ (held q ledger.outputs + minted_amounts q payment.minting) % 2 ^ 64)
issue-conserves_example =
    issue-conserves addresses hex datum_data payment (171 ∷ []) ledger paid "ab" payment-IsValid
      ledger-AllValid payment_issued

issue-accepted_example :
    Redeems addresses hex datum_data payment "alice" [] payment.script_inputs
    × All (Mints addresses hex datum_data payment "alice") payment.minting
issue-accepted_example =
    issue-accepted addresses hex datum_data payment (171 ∷ []) ledger paid "ab" payment_issued

asked_tokens : unbuilt_amounts token payment.unbuilt_outputs ≡ 3
unfolding add_one_value insert empty ada get
asked_tokens = refl

issue-creates_nothing_example :
    held token paid.outputs ≤ held token ledger.outputs + minted_amounts token payment.minting
issue-creates_nothing_example =
    issue-creates_nothing addresses hex datum_data payment (171 ∷ []) ledger paid "ab" token
      payment-IsValid ledger-AllValid payment_issued (omega (arith, asked_tokens))

-- Without the redemption and the minting there is not enough.
abbrev overdraft : UnbuiltTransaction String ℕ ℕ
overdraft = record payment { script_inputs = []; minting = [] }

overdraft_fails :
    issue (in_memory ⦃lib = addresses⦄) addresses hex datum_data overdraft (171 ∷ []) ledger
    ≡ (err (not_issued not_enough_inputs), ledger)
unfolding issue try_subtract sum_values add_values add_one_value insert empty ada get from_outputs
    at_address erase remove_output map_beq add_output set_current_time
overdraft_fails = refl

issue-err_example :
    (ledger ≡ ledger)
    ⊎ ((id : OutputId) × (not_issued not_enough_inputs
          ≡ failed_to_retrieve_output_with_id id (test_lc duplicate_input)))
issue-err_example =
    issue-err addresses hex datum_data overdraft (171 ∷ []) ledger ledger
      (not_issued not_enough_inputs) overdraft_fails
