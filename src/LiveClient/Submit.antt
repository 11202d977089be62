-- ===== src/LiveClient/Submit.antt =====
-- The issuing of a transaction on a live ledger, and the client (src/trireme_ledger_client/cml_client.rs).
use naumachia.Prelude.{
  ℕ, ◌^◌, ltb, ◌==◌, nat_eq, if◌then◌else◌, List, [], ◌∷◌, String, Outcome, ok, panic, ok_or,
  map_err, expect, traverse,
}
use naumachia.Prelude.{◌>>=◌ as bind}
use naumachia.Prelude.Int.{ℤ, pos}
use naumachia.Address.{Network, testnet, mainnet, other}
use naumachia.Errors.{
  LedgerClientError, CmlLcError, cml, js_error, base_address, bad_address, bad_bech32,
  failed_to_retrieve_outputs_at, failed_to_get_block_time, current_time, clock,
}
use naumachia.Effects.{Run, ◌>>=◌, lift, return, raised}
use naumachia.Output.{Output}
use naumachia.Transaction.{UnbuiltTransaction, TransactionVersion, v1, v2}
use naumachia.LedgerClient.{LedgerClient}
use naumachia.LiveClient.Cml.{ValueLib, CmlLib}
use naumachia.LiveClient.Helpers.{issued, vasil_v1_tx_builder, vasil_v2_tx_builder}
use naumachia.LiveClient.Utxo.{
  Utxo, specify_utxos_available_for_input_selection, add_collateral, build_tx_for_signing, sign_tx,
  utxo_to_nau_utxo,
}
use naumachia.LiveClient.Issue.{
  CmlLedgerClient, ExecutionCost, as_failed_to_issue_tx, addr_from_bech_32, add_outputs_for_tx,
  add_v1_script_inputs, add_v2_script_inputs, add_tokens_for_v1_minting, add_tokens_for_v2_minting,
  set_valid_range, add_specific_inputs,
}

-- `as_failed_to_retrieve_by_address`, by the address's text.
abbrev pub as_failed_to_retrieve : String → CmlLcError → LedgerClientError
as_failed_to_retrieve addr e = failed_to_retrieve_outputs_at addr (cml e)

unfoldable pub network_of : ℕ → Network
network_of n = if n == 0 then testnet else (if n == 1 then mainnet else other n)

-- The u64 seconds of the clock as an i64, or a panic.
unfoldable pub seconds : ℕ → Outcome LedgerClientError ℤ
seconds n = if ltb n (2 ^ 63) then ok (pos n) else panic

module _ {V : ValueLib} {lib : CmlLib V} {A D R S : Type 0} (c : CmlLedgerClient lib A D R S) where
  -- `select_inputs_from_utxos`
  unfoldable pub select_inputs_from_utxos : lib.Builder → Outcome LedgerClientError lib.Builder
  select_inputs_from_utxos builder = issued (lib.select_utxos builder)

  unfoldable pub set_costs : List (ℕ × ExecutionCost) → lib.Builder → lib.Builder
  set_costs [] builder = builder
  set_costs ((index, spend) ∷ costs) builder =
      set_costs costs (lib.set_exunits spend.execution_type index spend.memory spend.steps builder)

  unfoldable pub update_ex_units : lib.Addr → lib.Builder → Run S LedgerClientError lib.Builder
  unfolding set_costs
  update_ex_units my_address builder = do
    transaction ← lift (issued (lib.draft_tx builder my_address))
    _ ← lift (expect (lib.tx_json transaction))
    res ← raised (λ e. as_failed_to_issue_tx js_error) (c.ledger.calculate_ex_units transaction)
    return (set_costs res builder)

  unfoldable pub submit_tx : lib.Tx → Run S LedgerClientError String
  submit_tx tx = raised as_failed_to_issue_tx (c.ledger.submit_transaction tx)

  -- What `issue_v1_tx` does to its builder before it asks for the execution units.
  unfoldable pub prepare_v1 :
      UnbuiltTransaction A D R → List (Utxo lib) → lib.Addr → Outcome LedgerClientError lib.Builder
  unfolding vasil_v1_tx_builder add_v1_script_inputs add_tokens_for_v1_minting
      specify_utxos_available_for_input_selection add_outputs_for_tx add_collateral
      select_inputs_from_utxos
  prepare_v1 tx my_utxos my_address = bind (vasil_v1_tx_builder lib) λ empty.
      bind (add_v1_script_inputs c tx empty) λ with_scripts.
        bind (add_tokens_for_v1_minting c tx with_scripts) λ with_minting.
          bind (specify_utxos_available_for_input_selection lib my_address my_utxos with_minting)
            λ with_utxos. bind (add_outputs_for_tx c tx with_utxos) λ with_outputs.
              bind (add_collateral lib my_address my_utxos with_outputs)
                λ with_collateral. select_inputs_from_utxos with_collateral

  unfoldable pub prepare_v2 :
      UnbuiltTransaction A D R → List (Utxo lib) → lib.Addr → Outcome LedgerClientError lib.Builder
  unfolding vasil_v2_tx_builder set_valid_range add_v2_script_inputs add_tokens_for_v2_minting
      specify_utxos_available_for_input_selection add_specific_inputs add_outputs_for_tx
      add_collateral select_inputs_from_utxos
  prepare_v2 tx my_utxos my_address = bind (vasil_v2_tx_builder lib) λ empty.
      bind (set_valid_range c tx empty) λ with_range.
        bind (add_v2_script_inputs c tx with_range) λ with_scripts.
          bind (add_tokens_for_v2_minting c tx with_scripts) λ with_minting.
            bind (specify_utxos_available_for_input_selection lib my_address my_utxos with_minting)
              λ with_utxos. bind (add_specific_inputs c tx with_utxos) λ with_inputs.
                bind (add_outputs_for_tx c tx with_inputs) λ with_outputs.
                  bind (add_collateral lib my_address my_utxos with_outputs)
                    λ with_collateral. select_inputs_from_utxos with_collateral

  -- The rest of `issue_v1_tx`, and of `issue_v2_tx`.
  unfoldable pub finish : lib.Addr → lib.Key → lib.Builder → Run S LedgerClientError String
  unfolding update_ex_units build_tx_for_signing sign_tx submit_tx
  finish my_address priv_key builder = do
    with_units ← update_ex_units my_address builder
    signed_tx_builder ← lift (build_tx_for_signing lib my_address with_units)
    tx ← lift (sign_tx lib priv_key signed_tx_builder)
    submit_tx tx

  unfoldable pub issue_v1_tx :
      UnbuiltTransaction A D R
      → List (Utxo lib)
      → lib.Addr
      → lib.Key
      → Run S LedgerClientError String
  unfolding prepare_v1 finish
  issue_v1_tx tx my_utxos my_address priv_key =
      lift (prepare_v1 tx my_utxos my_address) >>= finish my_address priv_key

  unfoldable pub issue_v2_tx :
      UnbuiltTransaction A D R
      → List (Utxo lib)
      → lib.Addr
      → lib.Key
      → Run S LedgerClientError String
  unfolding prepare_v2 finish
  issue_v2_tx tx my_utxos my_address priv_key =
      lift (prepare_v2 tx my_utxos my_address) >>= finish my_address priv_key

  unfoldable pub issue_by :
      TransactionVersion
      → UnbuiltTransaction A D R
      → List (Utxo lib)
      → lib.Addr
      → lib.Key
      → Run S LedgerClientError String
  unfolding issue_v1_tx issue_v2_tx
  issue_by v1 = issue_v1_tx
  issue_by v2 = issue_v2_tx

  unfoldable pub issue : UnbuiltTransaction A D R → Run S LedgerClientError String
  unfolding issue_by
  issue tx = do
    my_address ← raised as_failed_to_issue_tx c.keys.base_addr
    priv_key ← raised as_failed_to_issue_tx c.keys.private_key
    my_utxos ← raised as_failed_to_issue_tx (c.ledger.get_all_utxos_for_addr my_address)
    issue_by tx.script_version tx my_utxos my_address priv_key

  unfoldable pub signer_base_address : Run S LedgerClientError A
  signer_base_address = do
    base_addr ← raised (λ e. base_address (cml e)) c.keys.base_addr
    addr_string ← lift (ok_or (lib.addr_to_bech32 base_addr) (base_address (cml js_error)))
    lift (ok_or (c.addresses.from_bech32 addr_string) (base_address bad_bech32))

  -- The outputs that are reported for an address, as the framework has them.
  nau_utxos : A → List (Utxo lib) → Outcome LedgerClientError (List (Output D))
  unfolding utxo_to_nau_utxo
  nau_utxos address =
      traverse (λ utxo. utxo_to_nau_utxo lib c.hex c.addresses c.from_utf8 c.datums utxo address)

  unfoldable pub outputs_at_address : A → ℕ → Run S LedgerClientError (List (Output D))
  unfolding addr_from_bech_32 nau_utxos
  outputs_at_address address count = do
    addr_string ← lift (ok_or (c.addresses.to_bech32 address) (bad_address bad_bech32))
    cml_addr ←
        lift (map_err (as_failed_to_retrieve addr_string) (addr_from_bech_32 lib addr_string))
    bf_utxos ←
        raised (as_failed_to_retrieve addr_string) (c.ledger.get_utxos_for_addr cml_addr count)
    lift (nau_utxos address bf_utxos)

  unfoldable pub all_outputs_at_address : A → Run S LedgerClientError (List (Output D))
  unfolding addr_from_bech_32 nau_utxos
  all_outputs_at_address address = do
    addr_string ← lift (expect (c.addresses.to_bech32 address))
    cml_addr ←
        lift (map_err (as_failed_to_retrieve addr_string) (addr_from_bech_32 lib addr_string))
    bf_utxos ← raised (as_failed_to_retrieve addr_string) (c.ledger.get_all_utxos_for_addr cml_addr)
    lift (nau_utxos address bf_utxos)

  unfoldable pub current_time_secs : Run S LedgerClientError ℤ
  unfolding seconds
  current_time_secs s = (bind (ok_or (c.now s) (current_time clock)) seconds, s)

  -- The implementation of the trait `LedgerClient`.
  unfoldable pub cml_ledger_client : LedgerClient A D R S
  unfolding issue signer_base_address outputs_at_address all_outputs_at_address network_of
      current_time_secs
  cml_ledger_client = record {
    signer_base_address = signer_base_address;
    outputs_at_address = outputs_at_address;
    all_outputs_at_address = all_outputs_at_address;
    issue = issue;
    network = return (network_of c.network_settings.network);
    last_block_time_secs =
        raised (λ e. failed_to_get_block_time (cml e)) c.ledger.last_block_time_secs;
    current_time_secs = current_time_secs;
  }
