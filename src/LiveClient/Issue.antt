-- ===== src/LiveClient/Issue.antt =====
-- How a transaction is built and submitted to a live ledger
-- (src/trireme_ledger_client/cml_client.rs). The calls that change the builder return it.
use naumachia.Prelude.{ℕ, Option, none, some, List, [], ◌∷◌, String, Outcome, ok, ok_or, map_err}
use naumachia.Prelude.{◌>>=◌ as bind}
use naumachia.Prelude.Int.{ℤ}
use naumachia.Address.{AddressLib}
use naumachia.Values.{Values}
use naumachia.Errors.{
  LedgerClientError, CmlLcError, failed_to_issue_tx, cml, js_error, no_datum_on_script_input,
  validity_range,
}
use naumachia.Effects.{Run}
use naumachia.Output.{
  Output, UnbuiltOutput, wallet, validator, unbuilt_values, unbuilt_owner, output_owner,
  typed_datum,
}
use naumachia.Transaction.{UnbuiltTransaction, Minting, RedemptionDetails}
use naumachia.TestLedger.TxId.{HexLib}
use naumachia.LiveClient.Cml.{ValueLib, CmlLib, ExecutionType}
use naumachia.LiveClient.Value.{cml_value, name_bytes_of}
use naumachia.LiveClient.Helpers.{issued}
use naumachia.LiveClient.NetworkSettings.{NetworkSettings, slot_from_posix}
use naumachia.LiveClient.Utxo.{PlutusDataInterop, Utxo, input_tx_hash, script_from_hex}

pub record ExecutionCost : Type 0 where
  pub execution_type : ExecutionType
  pub memory : ℕ
  pub steps : ℕ

-- The trait `Ledger`.
pub record Ledger {V : ValueLib} (lib : CmlLib V) (S : Type 0) : Type 0 where
  pub last_block_time_secs : Run S CmlLcError ℤ
  pub get_utxos_for_addr : lib.Addr → ℕ → Run S CmlLcError (List (Utxo lib))
  pub get_all_utxos_for_addr : lib.Addr → Run S CmlLcError (List (Utxo lib))
  pub calculate_ex_units : lib.Tx → Run S CmlLcError (List (ℕ × ExecutionCost))
  pub submit_transaction : lib.Tx → Run S CmlLcError String

-- The trait `Keys`.
pub record Keys {V : ValueLib} (lib : CmlLib V) (S : Type 0) : Type 0 where
  pub base_addr : Run S CmlLcError lib.Addr
  pub private_key : Run S CmlLcError lib.Key

-- `as_failed_to_issue_tx`, of an error of this client.
abbrev pub as_failed_to_issue_tx : CmlLcError → LedgerClientError
as_failed_to_issue_tx e = failed_to_issue_tx (cml e)

-- A loop whose body changes the builder.
abbrev pub each :
    {A B : Type 0}
    → (A → B → Outcome LedgerClientError B)
    → List A
    → B
    → Outcome LedgerClientError B
each f [] b = ok b
each f (x ∷ xs) b = bind (f x b) λ b'. each f xs b'

-- `CMLLedgerCLient`, with what it takes from other crates: addresses, as values and as texts, hex
-- and UTF-8 text, and the clock of the system, in seconds since the Unix epoch.
pub record CmlLedgerClient {V : ValueLib} (lib : CmlLib V) (A D R S : Type 0) : Type 0 where
  pub ledger : Ledger lib S
  pub keys : Keys lib S
  pub network_settings : NetworkSettings
  pub datums : PlutusDataInterop lib.CmlData D
  pub redeemers : PlutusDataInterop lib.CmlData R
  pub addresses : AddressLib A
  pub address_text : A → String
  pub hex : HexLib
  pub from_utf8 : List ℕ → Option String
  pub now : S → Option ℕ

module _ {V : ValueLib} (lib : CmlLib V) where
  -- `addr_from_bech_32`
  unfoldable pub addr_from_bech_32 : String → Outcome CmlLcError lib.Addr
  addr_from_bech_32 addr = ok_or (lib.addr_from_bech32 addr) js_error

  -- The value of a bag, for a transaction.
  abbrev pub value_for : Values → Outcome LedgerClientError V.Value
  value_for values = map_err as_failed_to_issue_tx (cml_value V values)

module _ {V : ValueLib} {lib : CmlLib V} {A D R S : Type 0} (c : CmlLedgerClient lib A D R S) where
  output_with_datum : UnbuiltOutput D → lib.TxOutput → Outcome LedgerClientError lib.TxOutput
  output_with_datum (wallet _ _) output = ok output
  output_with_datum (validator _ _ datum) output =
      bind (c.datums.to_plutus_data datum) λ data_. ok (lib.set_datum data_ output)

  -- The body of the loop of `add_outputs_for_tx`.
  unfoldable pub add_output_for_tx :
      UnbuiltOutput D → lib.Builder → Outcome LedgerClientError lib.Builder
  unfolding cml_value output_with_datum unbuilt_owner addr_from_bech_32
  add_output_for_tx unbuilt_output builder =
      bind (value_for lib (unbuilt_values unbuilt_output)) λ cml_values.
        bind (unbuilt_owner ⦃lib = c.addresses⦄ unbuilt_output) λ recipient.
          bind (map_err as_failed_to_issue_tx (addr_from_bech_32 lib (c.address_text recipient)))
            λ recp_addr.
              bind (output_with_datum unbuilt_output (lib.new_output recp_addr cml_values))
                λ res. issued (lib.add_output res builder)

  unfoldable pub add_outputs_for_tx :
      UnbuiltTransaction A D R → lib.Builder → Outcome LedgerClientError lib.Builder
  unfolding add_output_for_tx
  add_outputs_for_tx tx = each add_output_for_tx tx.unbuilt_outputs

  -- The input of an output at a script, of the script that `to_script` makes of its hex text.
  unfoldable pub script_input :
      (List ℕ → Option lib.Script) → RedemptionDetails A D R → Outcome LedgerClientError lib.Input
  unfolding input_tx_hash script_from_hex cml_value typed_datum
  script_input to_script (input, redeemer, script) = bind (input_tx_hash lib input) λ tx_hash.
      bind (script_from_hex lib c.hex to_script script.script_hex) λ cml_script.
        bind (c.redeemers.to_plutus_data redeemer) λ redeemer_data.
          let address = lib.script_address c.network_settings.network cml_script in
          bind (value_for lib input.values) λ value.
            bind (ok_or (typed_datum input) no_datum_on_script_input) λ maybe_data.
              bind (c.datums.to_plutus_data maybe_data) λ datum. issued (
                lib.plutus_input tx_hash input.id.index (lib.new_output address value) cml_script
                  redeemer_data datum)

  unfoldable pub add_v1_script_input :
      RedemptionDetails A D R → lib.Builder → Outcome LedgerClientError lib.Builder
  unfolding script_input
  add_v1_script_input details builder =
      bind (script_input lib.script_v1 details)
        λ cml_input. issued (lib.add_input cml_input builder)

  unfoldable pub add_v2_script_input :
      RedemptionDetails A D R → lib.Builder → Outcome LedgerClientError lib.Builder
  unfolding script_input
  add_v2_script_input details builder =
      bind (script_input lib.script_v2 details)
        λ cml_input. issued (lib.add_input cml_input builder)

  unfoldable pub add_v1_script_inputs :
      UnbuiltTransaction A D R → lib.Builder → Outcome LedgerClientError lib.Builder
  unfolding add_v1_script_input
  add_v1_script_inputs tx = each add_v1_script_input tx.script_inputs

  unfoldable pub add_v2_script_inputs :
      UnbuiltTransaction A D R → lib.Builder → Outcome LedgerClientError lib.Builder
  unfolding add_v2_script_input
  add_v2_script_inputs tx = each add_v2_script_input tx.script_inputs

  unfoldable pub build_mint_res :
      ℕ → Option String → R → lib.Script → Outcome LedgerClientError lib.Mint
  unfolding name_bytes_of
  build_mint_res amount asset_name redeemer script =
      bind (issued (V.new_name (name_bytes_of V asset_name))) λ key.
        bind (c.redeemers.to_plutus_data redeemer)
          λ redeemer_data. ok (lib.mint_of key amount script redeemer_data)

  -- The body of the loops of `add_tokens_for_v1_minting` and `add_tokens_for_v2_minting`.
  unfoldable pub add_minting :
      (List ℕ → Option lib.Script)
      → Minting A R
      → lib.Builder
      → Outcome LedgerClientError lib.Builder
  unfolding script_from_hex build_mint_res
  add_minting to_script (amount, asset_name, redeemer, policy) builder =
      bind (script_from_hex lib c.hex to_script policy.script_hex) λ script.
        bind (build_mint_res amount asset_name redeemer script)
          λ mint_builder_res. ok (lib.add_mint mint_builder_res builder)

  unfoldable pub add_tokens_for_v1_minting :
      UnbuiltTransaction A D R → lib.Builder → Outcome LedgerClientError lib.Builder
  unfolding add_minting
  add_tokens_for_v1_minting tx = each (add_minting lib.script_v1) tx.minting

  unfoldable pub add_tokens_for_v2_minting :
      UnbuiltTransaction A D R → lib.Builder → Outcome LedgerClientError lib.Builder
  unfolding add_minting
  add_tokens_for_v2_minting tx = each (add_minting lib.script_v2) tx.minting

  -- A bound of the range as a slot, set by `set`.
  unfoldable pub set_bound :
      (ℕ → lib.Builder → lib.Builder)
      → Option ℤ
      → lib.Builder
      → Outcome LedgerClientError lib.Builder
  unfolding slot_from_posix
  set_bound set none builder = ok builder
  set_bound set (some posix) builder =
      bind (slot_from_posix c.network_settings posix)
        λ found. bind (ok_or found validity_range) λ slot. ok (set slot builder)

  unfoldable pub set_valid_range :
      UnbuiltTransaction A D R → lib.Builder → Outcome LedgerClientError lib.Builder
  unfolding set_bound
  set_valid_range tx builder =
      let (lower, upper) = tx.valid_range in
      bind (set_bound lib.set_validity_start_interval lower builder)
        λ builder'. set_bound lib.set_ttl upper builder'

  -- The body of the loop of `add_specific_inputs`.
  unfoldable pub add_specific_input : Output D → lib.Builder → Outcome LedgerClientError lib.Builder
  unfolding input_tx_hash output_owner addr_from_bech_32 cml_value
  add_specific_input specific_input builder =
      bind (input_tx_hash lib specific_input) λ transaction_id.
        bind (output_owner ⦃lib = c.addresses⦄ specific_input) λ owner.
          bind (map_err as_failed_to_issue_tx (addr_from_bech_32 lib (c.address_text owner)))
            λ address. bind (value_for lib specific_input.values) λ amount.
              bind
                (issued (
                  lib.payment_key transaction_id specific_input.id.index
                    (lib.new_output address amount)))
                λ res. issued (lib.add_input res builder)

  unfoldable pub add_specific_inputs :
      UnbuiltTransaction A D R → lib.Builder → Outcome LedgerClientError lib.Builder
  unfolding add_specific_input
  add_specific_inputs tx = each add_specific_input tx.specific_wallet_inputs
