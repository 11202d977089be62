-- ===== src/LiveClient/Cml.antt =====
-- What the client of a live ledger uses of the crate `cardano_multiplatform_lib`, as interfaces:
-- values and the building of transactions. `none` stands for an `Err`. Calls that only follow one
-- another with nothing between them are one field.
use naumachia.Prelude.{ℕ, Option, List, String}

-- Values: an amount of lovelace, and amounts by script hash and asset name.
pub record ValueLib : Type 1 where
  pub Value : Type 0
  pub MultiAsset : Type 0
  pub Assets : Type 0
  pub ScriptHash : Type 0
  pub AssetName : Type 0
  pub new_value : ℕ → Value
  pub coin : Value → ℕ
  pub multiasset : Value → Option MultiAsset
  pub set_multiasset : MultiAsset → Value → Value
  pub value_of_assets : MultiAsset → Value
  pub checked_add : Value → Value → Option Value
  pub no_assets : Assets
  pub insert_asset : AssetName → ℕ → Assets → Assets
  pub asset_names : Assets → List AssetName
  pub asset_amount : Assets → AssetName → Option ℕ
  pub no_policies : MultiAsset
  pub insert_policy : ScriptHash → Assets → MultiAsset → MultiAsset
  pub policies : MultiAsset → List ScriptHash
  pub assets_of : MultiAsset → ScriptHash → Option Assets
  pub new_name : List ℕ → Option AssetName
  pub name_bytes : AssetName → List ℕ
  pub hash_from_hex : String → Option ScriptHash
  pub hash_text : ScriptHash → String

-- What a script's execution is for.
pub data ExecutionType : Type 0 where
  spend mint certificate withdrawal : ExecutionType

-- The numbers that a builder of transactions is configured with. A price is a fraction.
pub record BuilderConfig (CmlInt : Type 0) : Type 0 where
  pub coefficient : ℕ
  pub constant : ℕ
  pub pool_deposit : ℕ
  pub key_deposit : ℕ
  pub max_value_size : ℕ
  pub max_tx_size : ℕ
  pub coins_per_utxo_byte : ℕ
  pub mem_price : ℕ × ℕ
  pub step_price : ℕ × ℕ
  pub collateral_percentage : ℕ
  pub max_collateral_inputs : ℕ
  pub cost_model : List CmlInt

-- Addresses, scripts and transactions.
pub record CmlLib (values : ValueLib) : Type 1 where
  pub Addr : Type 0
  pub TxHash : Type 0
  pub Script : Type 0
  pub CmlData : Type 0
  pub CmlInt : Type 0
  pub Input : Type 0
  pub TxOutput : Type 0
  pub Mint : Type 0
  pub Builder : Type 0
  pub Signed : Type 0
  pub Tx : Type 0
  pub Key : Type 0
  pub addr_from_bech32 : String → Option Addr
  pub addr_to_bech32 : Addr → Option String
  pub hash_of_bytes : List ℕ → Option TxHash
  pub tx_hash_text : TxHash → String
  pub script_v1 : List ℕ → Option Script
  pub script_v2 : List ℕ → Option Script
  -- The enterprise address of a script, by the network.
  pub script_address : ℕ → Script → Addr
  -- The number of a cost model, from an integer and from its digits.
  pub int_from : ℕ → CmlInt
  pub int_from_str : ℕ → Option CmlInt
  -- Outputs: with a value; with an amount of lovelace alone; with a datum, by its hash.
  pub new_output : Addr → values.Value → TxOutput
  pub output_with_coin : Addr → ℕ → Option TxOutput
  pub set_datum : CmlData → TxOutput → TxOutput
  -- Inputs: of a transaction's hash, an index and the output there, by a key or by a script with
  -- its redeemer and its datum.
  pub payment_key : TxHash → ℕ → TxOutput → Option Input
  pub plutus_input : TxHash → ℕ → TxOutput → Script → CmlData → CmlData → Option Input
  -- The minting of an asset under a script, with the redeemer.
  pub mint_of : values.AssetName → ℕ → Script → CmlData → Mint
  -- The builder of a transaction for Plutus V1 and V2.
  pub builder_v1 : BuilderConfig CmlInt → Option Builder
  pub builder_v2 : BuilderConfig CmlInt → Option Builder
  pub add_input : Input → Builder → Option Builder
  pub add_utxo : Input → Builder → Builder
  pub add_output : TxOutput → Builder → Option Builder
  pub add_mint : Mint → Builder → Builder
  pub add_collateral : Input → Builder → Option Builder
  -- With the strategy `LargestFirstMultiAsset`.
  pub select_utxos : Builder → Option Builder
  pub set_validity_start_interval : ℕ → Builder → Builder
  pub set_ttl : ℕ → Builder → Builder
  -- The type, the index, memory and steps.
  pub set_exunits : ExecutionType → ℕ → ℕ → ℕ → Builder → Builder
  -- With the default choice of change, for an address.
  pub draft_tx : Builder → Addr → Option Tx
  pub build : Builder → Addr → Option Signed
  pub tx_json : Tx → Option String
  -- The witness of a key for the body, and the transaction that is checked.
  pub add_vkey : Key → Signed → Signed
  pub build_checked : Signed → Option Tx
