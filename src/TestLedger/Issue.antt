-- ===== src/TestLedger/Issue.antt =====
-- Issuing a transaction on the fake ledger (src/ledger_client/test_ledger_client.rs, and the method
-- `balance_at_address` of src/ledger_client.rs).
use naumachia.Prelude.{
  ℕ, Option, none, some, List, [], ◌∷◌, ◌++◌, String, add_u64, if◌then◌else◌, Eq, map_err, Outcome,
  ok, err, panic, map,
}
use naumachia.Prelude.{◌>>=◌ as bind}
use naumachia.Prelude.Int.{ℤ, pos, add_i64, mul_i64, ltb_ℤ}
use naumachia.Address.{AddressLib}
use naumachia.Errors.{
  Error, LedgerClientError, failed_to_issue_tx, TestLcError, test_lc, tx_too_early, tx_too_late,
  not_enough_inputs,
}
use naumachia.PolicyId.{PolicyId}
use naumachia.Values.{Values, empty, add_values, try_subtract, get_value}
use naumachia.Scripts.PlutusData.{PlutusData}
use naumachia.Output.{Output, UnbuiltOutput, sum_values, unbuilt_values, from_outputs}
use naumachia.Transaction.{UnbuiltTransaction, Range}
use naumachia.TestLedger.Ledger.{Ledger, ◌>>=◌, ◌>>◌, lift, return}
use naumachia.TestLedger.Storage.{TestLedgerStorage}
use naumachia.TestLedger.TxId.{
  HexLib, TxIdConstructionCtx, new_ctx, advance_index, new_wallet_output, build_outputs,
}
use naumachia.TestLedger.Inputs.{spend_all, mint_all}

-- An upper bound is looked at only where there is no lower one.
unfoldable pub check_time_valid : Range → ℤ → Outcome TestLcError (Unit {0})
check_time_valid (some lower, _) current_time =
    if ltb_ℤ current_time (mul_i64 lower (pos 1000)) then err tx_too_early else ok tt
check_time_valid (none, some upper) current_time =
    if ltb_ℤ current_time (mul_i64 upper (pos 1000)) then ok tt else err tx_too_late
check_time_valid (none, none) current_time = ok tt

abbrev pub not_issued : TestLcError → LedgerClientError
not_issued e = failed_to_issue_tx (test_lc e)

-- The fold of `balance_at_address`; the sum is a u64.
unfoldable pub sum_policy : {D : Type 0} → PolicyId → ℕ → List (Output D) → ℕ
sum_policy policy acc [] = acc
sum_policy policy acc (o ∷ os) =
    sum_policy policy (elim (get_value o.values policy) [ some val ↦ add_u64 acc val | none ↦ acc ])
      os

module _ {A D S : Type 0} (storage : TestLedgerStorage A D S) where
  -- `advance_time_n_blocks`
  unfoldable pub advance_time_n_blocks : ℤ → Ledger S (Unit {0})
  advance_time_n_blocks n_blocks = do
    block_length ← storage.get_block_length
    current_time ← storage.current_time
    let advanced_time = mul_i64 block_length n_blocks
    storage.set_current_time (add_i64 advanced_time current_time)

  unfoldable pub remove_outputs : List (Output D) → Ledger S (Unit {0})
  remove_outputs [] = return tt
  remove_outputs (input ∷ inputs) = storage.remove_output input >> remove_outputs inputs

  unfoldable pub add_outputs : List (Output D) → Ledger S (Unit {0})
  add_outputs [] = return tt
  add_outputs (output ∷ outputs) = storage.add_output output >> add_outputs outputs

  -- The outputs are added, and a block passes.
  unfoldable pub commit_outputs : List (Output D) → Ledger S (Unit {0})
  unfolding add_outputs advance_time_n_blocks
  commit_outputs outputs = add_outputs outputs >> advance_time_n_blocks (pos 1)

  -- The default method of the trait `LedgerClient`.
  unfoldable pub balance_at_address : A → PolicyId → Ledger S ℕ
  unfolding sum_policy
  balance_at_address address policy = do
    outputs ← storage.all_outputs address
    return (sum_policy policy 0 outputs)

-- The remainder goes back to the signer, in the first output.
unfoldable pub remainder_output :
    {A D : Type 0}
    → AddressLib A
    → A
    → Option Values
    → TxIdConstructionCtx
    → Outcome LedgerClientError (List (Output D) × TxIdConstructionCtx)
unfolding new_wallet_output advance_index
remainder_output lib signer none c = ok ([], c)
remainder_output lib signer (some remainder) c = elim (new_wallet_output lib signer remainder c) [
  | ok output ↦ ok (output ∷ [], advance_index c)
  | err e ↦ err e
  | panic ↦ panic
]

-- The outputs of the transaction, built: the remainder first. `random` is the hash of its id.
unfoldable pub combined_outputs :
    {A D : Type 0}
    → AddressLib A
    → A
    → Option Values
    → List (UnbuiltOutput D)
    → List ℕ
    → Outcome LedgerClientError (List (Output D))
unfolding remainder_output build_outputs
combined_outputs lib signer maybe_remainder unbuilt_outputs random =
    bind (remainder_output lib signer maybe_remainder (new_ctx random))
      λ (remainder, c). bind (build_outputs lib unbuilt_outputs c) λ built. ok (remainder ++ built)

module _ {A D R S : Type 0} ⦃d : Eq D⦄ (storage : TestLedgerStorage A D S) (lib : AddressLib A)
    (hex : HexLib) (into : D → PlutusData) where
  -- The scripts are run on what is spent and minted, and the outputs are weighed against it:
  -- the inputs, and what is left of their value.
  unfoldable pub weigh_tx :
      UnbuiltTransaction A D R
      → A
      → List (Output D)
      → Outcome LedgerClientError (A × List (Output D) × Option Values)
  unfolding spend_all mint_all
  weigh_tx tx signer mine = bind (spend_all lib hex into tx signer [] tx.script_inputs) λ spent.
      bind (mint_all lib hex into tx signer empty tx.minting) λ minted_value.
        let combined_inputs = mine ++ spent in
        let total_input_value = add_values (from_outputs combined_inputs) minted_value in
        let total_output_value = sum_values empty (map unbuilt_values tx.unbuilt_outputs) in
        bind
          (map_err (λ (e : Error). not_issued not_enough_inputs)
            (try_subtract total_input_value total_output_value))
          λ maybe_remainder. ok (signer, combined_inputs, maybe_remainder)

  -- What `issue` does before it writes.
  unfoldable pub check_tx :
      UnbuiltTransaction A D R → Ledger S (A × List (Output D) × Option Values)
  unfolding check_time_valid weigh_tx
  check_tx tx = do
    current_time ← storage.current_time
    lift (map_err not_issued (check_time_valid tx.valid_range current_time))
    signer ← storage.signer
    mine ← storage.all_outputs signer
    lift (weigh_tx tx signer mine)

  -- What it writes: the inputs go, the remainder and the outputs come, and time passes.
  unfoldable pub settle_tx :
      UnbuiltTransaction A D R → List ℕ → A × List (Output D) × Option Values → Ledger S (Unit {0})
  unfolding remove_outputs combined_outputs commit_outputs
  settle_tx tx random (signer, combined_inputs, maybe_remainder) = do
    remove_outputs storage combined_inputs
    outputs ← lift (combined_outputs lib signer maybe_remainder tx.unbuilt_outputs random)
    commit_outputs storage outputs

  -- `issue`; `random` is the new transaction's hash.
  unfoldable pub issue : UnbuiltTransaction A D R → List ℕ → Ledger S String
  unfolding check_tx settle_tx
  issue tx random = do
    checked ← check_tx tx
    settle_tx tx random checked
    return (hex.encode random)
