-- ===== src/CheckingAccount/Owner.antt =====
-- What the owner of a checking account does (sample-dApps/checking_account/src/withdraw.rs and
-- endpoints/).
use naumachia.Prelude.{
  ℕ, Option, none, some, List, [], ◌∷◌, String, if◌then◌else◌, ltb, map_err, expect, unwrap, ok_or,
  Outcome,
}
use naumachia.Prelude.{◌>>=◌ as bind}
use naumachia.Prelude.Int.{ℤ}
use naumachia.Address.{AddressLib}
use naumachia.Errors.{
  failed_to_construct, ScLogicError, validator_script, policy_script, OutputId, input_not_found,
  output_not_found, datum_not_found_for_output, invalid_address,
}
use naumachia.Effects.{Run, ◌>>=◌, call, lift, return}
use naumachia.PolicyId.{lovelace, native_token}
use naumachia.Values.{Values, empty, add_one_value, try_subtract, get_value}
use naumachia.Scripts.{Validator}
use naumachia.Scripts.Context.{PubKeyHash, pub_key_hash_from_address_if_available}
use naumachia.Output.{Output, typed_datum}
use naumachia.Transaction.{
  v2, tx_actions, with_mint, with_script_init, with_script_redeem, with_specific_input,
}
use naumachia.Logic.{
  endpoint_lc, endpoint_script, endpoint_error, endpoint_dapp, lookup_lc, found_output,
  output_reference,
}
use naumachia.TestLedger.TxId.{HexLib}
use naumachia.CheckingAccount.{
  CheckingAccountScripts, Actions, Client, checking_account_nft_asset_name, spend_token_asset_name,
}
use naumachia.CheckingAccount.Datum.{CheckingAccountDatums, checking_account, allowed_puller}

abbrev pub min_lovelace : ℕ
min_lovelace = 5000000

-- The outputs that hold more than the least amount, and the last of them.
unfoldable pub last_above_min : {D : Type 0} → List (Output D) → Option (Output D)
unfolding get_value
last_above_min [] = none
last_above_min (input ∷ outputs) =
    let later = last_above_min outputs in
    elim later [
      | some output ↦ some output
      | none ↦ elim (get_value input.values lovelace) [
        | some ada_value ↦ if ltb min_lovelace ada_value then some input else none
        | none ↦ none
      ]
    ]

module _ {A S : Type 0} ⦃lib : AddressLib A⦄ (hex : HexLib) (scripts : CheckingAccountScripts A)
    (client : Client A S) where
  unfoldable pub select_any_above_min : Run S ScLogicError (Output CheckingAccountDatums)
  unfolding last_above_min
  select_any_above_min = do
    me ← call endpoint_lc client.signer_base_address
    outputs ← call endpoint_lc (client.all_outputs_at_address me)
    lift (ok_or (last_above_min outputs) (endpoint_dapp input_not_found))

  unfoldable pub init_account : ℕ → Run S ScLogicError (Actions A)
  unfolding select_any_above_min add_one_value with_script_init with_specific_input with_mint
      output_reference
  init_account starting_lovelace = do
    network ← call endpoint_lc client.network
    owner ← call endpoint_lc client.signer_base_address
    my_input ← select_any_above_min
    nft ← lift (map_err policy_script scripts.one_shot)
    nft_policy ← lift (ok_or (nft (output_reference my_input)) (policy_script failed_to_construct))
    parameterized ← lift (map_err endpoint_script scripts.spend_token_policy)
    nft_script_id ← lift (unwrap nft_policy.id)
    nft_script_id_bytes ← lift (expect (hex.decode nft_script_id))
    owner_pubkey ← lift (expect (pub_key_hash_from_address_if_available owner))
    spending_token_policy ← lift (expect (parameterized nft_script_id_bytes owner_pubkey))
    validator ← lift (map_err endpoint_script scripts.checking_account_validator)
    spend_token_policy ← lift (unwrap spending_token_policy.id)
    address ← lift (map_err endpoint_script (validator.address network))
    spend_token_id ← lift (expect (hex.decode spend_token_policy))
    let datum =
        checking_account (record { owner = owner_pubkey; spend_token_policy = spend_token_id })
    let funded = add_one_value empty lovelace starting_lovelace
    let nft_id = native_token nft_script_id (some checking_account_nft_asset_name)
    let values = add_one_value funded nft_id 1
    let with_account = with_script_init (tx_actions v2) datum values address
    let with_input = with_specific_input with_account my_input
    return (with_mint with_input 1 (some checking_account_nft_asset_name) tt nft_policy)

  unfoldable pub add_puller : String → PubKeyHash → ℕ → ℤ → ℤ → Run S ScLogicError (Actions A)
  unfolding add_one_value with_mint with_script_init
  add_puller checking_account_nft_id puller amount_lovelace period next_pull = do
    network ← call endpoint_lc client.network
    me ← call endpoint_lc client.signer_base_address
    owner ← lift (ok_or (pub_key_hash_from_address_if_available me) (endpoint_dapp invalid_address))
    nft_id_bytes ← lift (expect (hex.decode checking_account_nft_id))
    my_pubkey ← lift (expect (pub_key_hash_from_address_if_available me))
    parameterized_spending_token_policy ← lift (unwrap scripts.spend_token_policy)
    policy ← lift (expect (parameterized_spending_token_policy nft_id_bytes my_pubkey))
    id ← lift (unwrap policy.id)
    validator ← lift (map_err validator_script scripts.pull_validator)
    address ← lift (map_err endpoint_script (validator.address network))
    let values = add_one_value empty (native_token id (some spend_token_asset_name)) 1
    spending_token ← lift (expect (hex.decode id))
    let datum = allowed_puller (record {
      owner = owner;
      puller = puller;
      amount_lovelace = amount_lovelace;
      next_pull = next_pull;
      period = period;
      spending_token = spending_token;
      checking_account_nft = nft_id_bytes;
    })
    let minting = with_mint (tx_actions v2) 1 (some spend_token_asset_name) tt policy
    return (with_script_init minting datum values address)

unfoldable pub datum_at :
    OutputId → Output CheckingAccountDatums → Outcome ScLogicError CheckingAccountDatums
unfolding typed_datum
datum_at output_id output =
    ok_or (typed_datum output) (endpoint_dapp (datum_not_found_for_output output_id))

-- What is left of a bag without an amount of lovelace.
unfoldable pub without_lovelace : OutputId → Values → ℕ → Outcome ScLogicError Values
unfolding add_one_value try_subtract
without_lovelace output_id old_values amount =
    let sub_values = add_one_value empty lovelace amount in
    bind (map_err endpoint_error (try_subtract old_values sub_values))
      λ maybe_value. ok_or maybe_value (endpoint_dapp (output_not_found output_id))

module _ {A S : Type 0} (scripts : CheckingAccountScripts A) (client : Client A S) where
  -- The account with an id: the validator, its address and the output there.
  unfoldable pub account_output :
      OutputId
      → Run S ScLogicError
          (Validator A CheckingAccountDatums (Unit {0}) × A × Output CheckingAccountDatums)
  account_output output_id = do
    network ← call endpoint_lc client.network
    validator ← lift (map_err endpoint_script scripts.checking_account_validator)
    address ← lift (map_err validator_script (validator.address network))
    outputs ← call lookup_lc (client.all_outputs_at_address address)
    output ← lift (found_output output_id outputs)
    return (validator, address, output)

  unfoldable pub fund_account : OutputId → ℕ → Run S ScLogicError (Actions A)
  unfolding account_output datum_at add_one_value with_script_redeem with_script_init
  fund_account output_id amount = do
    (checking_account_validator, checking_account_address, output) ← account_output output_id
    new_datum ← lift (datum_at output_id output)
    let values = add_one_value output.values lovelace amount
    let redeeming = with_script_redeem (tx_actions v2) output tt checking_account_validator
    return (with_script_init redeeming new_datum values checking_account_address)

  unfoldable pub withdraw_from_account : OutputId → ℕ → Run S ScLogicError (Actions A)
  unfolding account_output datum_at without_lovelace with_script_redeem with_script_init
  withdraw_from_account output_id amount = do
    (validator, address, output) ← account_output output_id
    new_datum ← lift (datum_at output_id output)
    new_value ← lift (without_lovelace output_id output.values amount)
    let redeeming = with_script_redeem (tx_actions v2) output tt validator
    return (with_script_init redeeming new_datum new_value address)

  unfoldable pub remove_puller : OutputId → Run S ScLogicError (Actions A)
  unfolding with_script_redeem
  remove_puller output_id = do
    network ← call endpoint_lc client.network
    validator ← lift (map_err validator_script scripts.pull_validator)
    address ← lift (map_err validator_script (validator.address network))
    outputs ← call lookup_lc (client.all_outputs_at_address address)
    output ← lift (found_output output_id outputs)
    return (with_script_redeem (tx_actions v2) output tt validator)
